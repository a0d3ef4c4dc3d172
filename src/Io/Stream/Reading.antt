-- ===== src/Io/Stream/Reading.antt =====
-- Whatever the pieces in which read(2) delivers the stream, readExact takes its next bytes.
use rail.Prelude.{
  ℕ, zero, suc, ◌+◌, ◌-◌, ◌≤◌, ◌<◌, ◌≡◌, refl, ◌∙◌, false, [], ◌∷◌, ◌++◌, length, take, drop, ◌==◌,
  append-nil, append_assoc, length-take, length-drop, arith,
}
use rail.Prelude.Pieces.{take-drop, drop-drop}
use rail.Result.{Result, ok, fail_message, ◌>>=◌}
use rail.Proto.Bytes.{Bytes}
use rail.Io.Stream.{read, read_exact_loop, read_exact}

-- read(2): while the peer has more, a call with room moves at least one byte, and no more than
-- there is room for and than there is.
abbrev pub Delivers : (ℕ → Bytes → Result ℕ) → Type 0
Delivers gives =
    (want : ℕ) (input : Bytes)
    → 0 < want
    → 0 < length input
    → (n : ℕ) × (gives want input ≡ ok n) × (0 < n) × (n ≤ want) × (n ≤ length input)

-- At the end of the stream it moves none.
abbrev pub Ends : (ℕ → Bytes → Result ℕ) → Type 0
Ends gives = (want : ℕ) → gives want [] ≡ ok 0

read_exact_round :
    (gives : ℕ → Bytes → Result ℕ) (fuel want n : ℕ) (done input : Bytes)
    → gives (suc want) input ≡ ok n
    → 0 < n
    → n ≤ length input
    → read_exact_loop gives (suc fuel) (suc want) done input
      ≡ read_exact_loop gives fuel (suc want - n) (done ++ take n input) (drop n input)
unfolding read_exact_loop read
read_exact_round gives fuel want n done input moved pos there =
    let got : length (take n input) ≡ n = omega (arith, length-take n input) in
    let some_moved : (n == 0) ≡ false = ground arith in rw (moved, ◌>>=◌, got, some_moved) refl

read_exact_loop-take :
    (gives : ℕ → Bytes → Result ℕ) (fuel want : ℕ) (done input : Bytes)
    → Delivers gives
    → want ≤ fuel
    → want ≤ length input
    → read_exact_loop gives fuel want done input ≡ ok (done ++ take want input, drop want input)
unfolding read_exact_loop
read_exact_loop-take gives fuel zero done input law f h = rw append-nil
read_exact_loop-take gives zero (suc want) done input law f h = absurd (omega arith)
read_exact_loop-take gives (suc fuel) (suc want) done input law f h =
    let (n, moved, pos, room, there) = law (suc want) input (omega arith) (omega arith) in
    let whole : n + (suc want - n) ≡ suc want = omega arith in
    read_exact_round gives fuel want n done input moved pos there
    ∙ read_exact_loop-take gives fuel (suc want - n) (done ++ take n input) (drop n input) law
        (omega arith) (omega (arith, length-drop n input))
    ∙ rw (append_assoc, take-drop n (suc want - n) input, drop-drop n (suc want - n) input, whole)

-- Where the peer sends enough, readExact fills the buffer with the next bytes of the stream,
-- however few each read(2) moves, and leaves the rest.
pub read_exact-take :
    (gives : ℕ → Bytes → Result ℕ) (n : ℕ) (input : Bytes)
    → Delivers gives
    → n ≤ length input
    → read_exact gives n input ≡ ok (take n input, drop n input)
unfolding read_exact
read_exact-take gives n input law h = read_exact_loop-take gives n n [] input law (omega arith) h

read_exact_loop-closed :
    (gives : ℕ → Bytes → Result ℕ) (fuel want : ℕ) (done input : Bytes)
    → Delivers gives
    → Ends gives
    → want ≤ fuel
    → length input < want
    → read_exact_loop gives fuel want done input ≡ fail_message "peer closed"
unfolding read_exact_loop read
read_exact_loop-closed gives fuel zero done input law end f h = absurd (omega arith)
read_exact_loop-closed gives zero (suc want) done input law end f h = absurd (omega arith)
read_exact_loop-closed gives (suc fuel) (suc want) done [] law end f h = rw (end (suc want), ◌>>=◌)
read_exact_loop-closed gives (suc fuel) (suc want) done (b ∷ input) law end f h =
    let (n, moved, pos, room, there) = law (suc want) (b ∷ input) (omega arith) (omega arith) in
    read_exact_round gives fuel want n done (b ∷ input) moved pos there
    ∙ read_exact_loop-closed gives fuel (suc want - n) (done ++ take n (b ∷ input))
        (drop n (b ∷ input)) law end (omega arith) (omega (arith, length-drop n (b ∷ input)))

-- Where the peer closes first, readExact fails and hands over nothing.
pub read_exact-closed :
    (gives : ℕ → Bytes → Result ℕ) (n : ℕ) (input : Bytes)
    → Delivers gives
    → Ends gives
    → length input < n
    → read_exact gives n input ≡ fail_message "peer closed"
unfolding read_exact
read_exact-closed gives n input law end h =
    read_exact_loop-closed gives n n [] input law end (omega arith) h
