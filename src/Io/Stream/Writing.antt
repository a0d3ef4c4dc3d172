-- ===== src/Io/Stream/Writing.antt =====
-- Whatever the pieces in which the system takes the bytes, writeAll sends them all and in order.
use rail.Prelude.{
  ℕ, zero, suc, ◌+◌, ◌-◌, ◌≤◌, ◌<◌, ◌≡◌, ap, ◌∙◌, true, false, List, [], ◌∷◌, ◌++◌, length, take,
  drop, ltb, ◌==◌, if◌then◌else◌, append-nil, length-append, length-drop, drop-append_le,
  Bool-cases, inl, inr, arith,
}
use rail.Prelude.Pieces.{drop-append_ge, drop_all, take-drop-from}
use rail.Result.{Result, ok, ◌>>=◌}
use rail.Proto.Bytes.{Bytes}
use rail.Io.Stream.{write_all_loop, write_all, parts, gather, write_two_loop, write_two}

-- writev(2): a call with something to write moves at least one byte, and no more than there is.
abbrev pub Accepts : (List Bytes → Result ℕ) → Type 0
Accepts takes =
    (now : List Bytes)
    → 0 < length (gather now)
    → (n : ℕ) × (takes now ≡ ok n) × (0 < n) × (n ≤ length (gather now))

-- A span that has nothing left is left out of the iovecs.
present : (k : ℕ) (s : Bytes) → gather (if ltb k (length s) then drop k s ∷ [] else []) ≡ drop k s
unfolding gather
present k s = elim (Bool-cases (ltb k (length s))) [
  | inl more ↦ rw more (append-nil (drop k s))
  | inr none_left ↦ rw (none_left, drop_all k s (ground arith))
]

-- The iovecs hold what is left of the two spans, in order: also where `done` lies inside the first.
parts-gather :
    (first second : Bytes) (done : ℕ)
    → gather (parts first second done) ≡ drop done (first ++ second)
unfolding parts gather
parts-gather first second done = elim (Bool-cases (ltb done (length first))) [
  | inl inside ↦
      let left : ltb 0 (length first - done) ≡ true = ground arith in
      let within : done ≤ length first = ground arith in
      rw (inside, left, drop-append_le done first second within)
        (ap (λ t. drop done first ++ t) (present 0 second))
  | inr past ↦
      let beyond : length first ≤ done = ground arith in
      rw (past, drop-append_ge done first second beyond) (present (done - length first) second)
]

write_two_round :
    (takes : List Bytes → Result ℕ) (fuel n : ℕ) (first second : Bytes) (done : ℕ) (sent : Bytes)
    → takes (parts first second done) ≡ ok n
    → 0 < n
    → ltb done (length first + length second) ≡ true
    → write_two_loop takes (suc fuel) first second done sent
      ≡ write_two_loop takes fuel first second
          (done + n)
          (sent ++ take n (drop done (first ++ second)))
unfolding write_two_loop
write_two_round takes fuel n first second done sent moved pos more =
    let some_moved : (n == 0) ≡ false = ground arith in
    rw (more, moved, ◌>>=◌, some_moved, parts-gather first second done)

write_two_loop-all :
    (takes : List Bytes → Result ℕ) (fuel : ℕ) (first second : Bytes) (done : ℕ) (sent : Bytes)
    → Accepts takes
    → length first + length second ≤ fuel + done
    → write_two_loop takes fuel first second done sent ≡ ok (sent ++ drop done (first ++ second))
unfolding write_two_loop
write_two_loop-all takes zero first second done sent law f =
    let stop : ltb done (length first + length second) ≡ false = ground arith in
    rw (
      stop,
      drop_all done (first ++ second) (omega (arith, length-append first second)),
      append-nil,
    )
write_two_loop-all takes (suc fuel) first second done sent law f =
    elim (Bool-cases (ltb done (length first + length second))) [
      | inl more ↦
          let (n, moved, pos, there) = law (parts first second done) (left more) in
          write_two_round takes fuel n first second done sent moved pos more
          ∙ write_two_loop-all takes fuel first second (done + n) _ law (omega arith)
          ∙ ap ok (take-drop-from done n sent (first ++ second))
      | inr stop ↦ rw (
        stop,
        drop_all done (first ++ second) (ground (arith, length-append first second)),
        append-nil,
      )
    ]
  where
    left :
        ltb done (length first + length second) ≡ true
        → 0 < length (gather (parts first second done))
    left more =
        rw (parts-gather first second done)
          (ground (arith, length-drop done (first ++ second), length-append first second))

-- writeAll over two spans puts the first and then the second on the stream, whole, wherever the
-- partial writes fall.
pub write_two-all :
    (takes : List Bytes → Result ℕ) (first second sent : Bytes)
    → Accepts takes
    → write_two takes first second sent ≡ ok (sent ++ (first ++ second))
unfolding write_two
write_two-all takes first second sent law =
    write_two_loop-all takes (length first + length second) first second 0 sent law (omega arith)

-- write(2): a call with something to write moves at least one byte, and no more than there is.
abbrev pub AcceptsOne : (Bytes → Result ℕ) → Type 0
AcceptsOne takes =
    (now : Bytes) → 0 < length now → (n : ℕ) × (takes now ≡ ok n) × (0 < n) × (n ≤ length now)

write_all_round :
    (takes : Bytes → Result ℕ) (fuel n : ℕ) (src : Bytes) (done : ℕ) (sent : Bytes)
    → takes (drop done src) ≡ ok n
    → 0 < n
    → ltb done (length src) ≡ true
    → write_all_loop takes (suc fuel) src done sent
      ≡ write_all_loop takes fuel src (done + n) (sent ++ take n (drop done src))
unfolding write_all_loop
write_all_round takes fuel n src done sent moved pos more =
    let some_moved : (n == 0) ≡ false = ground arith in rw (more, moved, ◌>>=◌, some_moved)

write_all_loop-all :
    (takes : Bytes → Result ℕ) (fuel : ℕ) (src : Bytes) (done : ℕ) (sent : Bytes)
    → AcceptsOne takes
    → length src ≤ fuel + done
    → write_all_loop takes fuel src done sent ≡ ok (sent ++ drop done src)
unfolding write_all_loop
write_all_loop-all takes zero src done sent law f =
    let stop : ltb done (length src) ≡ false = ground arith in
    rw (stop, drop_all done src (omega arith), append-nil)
write_all_loop-all takes (suc fuel) src done sent law f =
    elim (Bool-cases (ltb done (length src))) [
      | inl more ↦
          let (n, moved, pos, there) = law (drop done src) (ground (arith, length-drop done src)) in
          write_all_round takes fuel n src done sent moved pos more
          ∙ write_all_loop-all takes fuel src (done + n) _ law (omega arith)
          ∙ ap ok (take-drop-from done n sent src)
      | inr stop ↦ rw (stop, drop_all done src (ground arith), append-nil)
    ]

-- writeAll puts the whole span on the stream.
pub write_all-all :
    (takes : Bytes → Result ℕ) (src sent : Bytes)
    → AcceptsOne takes
    → write_all takes src sent ≡ ok (sent ++ src)
unfolding write_all
write_all-all takes src sent law =
    write_all_loop-all takes (length src) src 0 sent law (omega arith)
