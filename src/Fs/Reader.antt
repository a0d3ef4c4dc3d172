-- ===== src/Fs/Reader.antt =====
-- FileReader of src/fs/reader.cc: a file as fstat measured it at open and as pread serves it. How
-- many bytes one pread moves, or its error, is a parameter; a call that EINTR interrupts is that
-- call once it returns.
use rail.Prelude.{
  ℕ, zero, suc, ◌+◌, ◌-◌, ◌≤◌, ◌<◌, ◌≡◌, ◌∙◌, false, Bool-cases, inl, inr, ltb, [], ◌++◌, length,
  take, drop, ◌==◌, if◌then◌else◌, append_assoc, append-nil, arith,
}
use rail.Prelude.Pieces.{take-drop, drop-drop, drop_all}
use rail.Result.{Result, ok, fail_message, ◌>>=◌}
use rail.Proto.Bytes.{Bytes}

pub record FileReader : Type 0 where
  -- FileMeta::Size
  pub size : ℕ
  pub contents : Bytes
  pub pread : ℕ → ℕ → Result ℕ

-- while (Done < Dst.size()): the end of the file ends the loop early.
unfoldable pub read_loop : FileReader → ℕ → ℕ → ℕ → Bytes → Result Bytes
read_loop r fuel zero offset done = ok done
read_loop r zero (suc want) offset done = fail_message "out of fuel"
read_loop r (suc fuel) (suc want) offset done = do
  n ← r.pread (suc want) offset
  if n == 0
      then ok done
      else read_loop r fuel (suc want - n) (offset + n) (done ++ take n (drop offset r.contents))

-- What it puts into a buffer of `want` bytes; `want` rounds are enough.
unfoldable pub read : FileReader → ℕ → ℕ → Result Bytes
read r want offset = read_loop r want want offset []

-- pread(2): a call moves at least one byte where there is room and the file goes on, none at its
-- end, and never more than there is room for or than the file holds.
pub record Serves (r : FileReader) : Type 0 where
  pub moves :
      (want offset : ℕ)
      → 0 < want
      → offset < length r.contents
      → (n : ℕ) × (r.pread want offset ≡ ok n)
        × (0 < n)
        × (n ≤ want)
        × (offset + n ≤ length r.contents)
  pub ends : (want offset : ℕ) → length r.contents ≤ offset → r.pread want offset ≡ ok 0

read_round :
    (r : FileReader) (fuel want n offset : ℕ) (done : Bytes)
    → r.pread (suc want) offset ≡ ok n
    → 0 < n
    → read_loop r (suc fuel) (suc want) offset done
      ≡ read_loop r fuel (suc want - n) (offset + n) (done ++ take n (drop offset r.contents))
unfolding read_loop
read_round r fuel want n offset done moved pos =
    let some_moved : (n == 0) ≡ false = ground arith in rw (moved, ◌>>=◌, some_moved)

read_loop-take :
    (r : FileReader) (fuel want offset : ℕ) (done : Bytes)
    → Serves r
    → want ≤ fuel
    → read_loop r fuel want offset done ≡ ok (done ++ take want (drop offset r.contents))
unfolding read_loop
read_loop-take r fuel zero offset done law f = rw append-nil
read_loop-take r zero (suc want) offset done law f = absurd (omega arith)
read_loop-take r (suc fuel) (suc want) offset done law f =
    elim (Bool-cases (ltb offset (length r.contents))) [
      | inl more ↦
          let (n, moved, pos, room, there) =
            law.moves (suc want) offset (omega arith) (ground arith) in
          let whole : n + (suc want - n) ≡ suc want = omega arith in
          read_round r fuel want n offset done moved pos
          ∙ read_loop-take r fuel (suc want - n) (offset + n) _ law (omega arith)
          ∙ rw (
            append_assoc,
            ← drop-drop offset n r.contents,
            take-drop n (suc want - n) (drop offset r.contents),
            whole,
          )
      | inr past ↦
          let over : length r.contents ≤ offset = ground arith in
          rw (law.ends (suc want) offset over, ◌>>=◌, drop_all offset r.contents over, append-nil)
    ]

-- A read fills the buffer with the bytes of the file from the offset on, or with what it still has.
pub read-take :
    (r : FileReader) (want offset : ℕ)
    → Serves r
    → read r want offset ≡ ok (take want (drop offset r.contents))
unfolding read
read-take r want offset law = read_loop-take r want want offset [] law (omega arith)
