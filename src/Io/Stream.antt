-- ===== src/Io/Stream.antt =====
-- Stream::read, readExact and the two writeAll of src/io/stream.cc. The descriptor is what the peer
-- has sent and is not read yet, or what has been written. The system calls are parameters: how many
-- bytes one call moves, or the error it ends with. A call that EINTR or EAGAIN sends round again is
-- that call once it moves something, or fails.
pub mod Reading
pub mod Writing
use rail.Prelude.{
  ℕ, zero, suc, ◌+◌, ◌-◌, List, [], ◌∷◌, ◌++◌, length, take, drop, ltb, ◌==◌, if◌then◌else◌,
}
use rail.Result.{Result, ok, err, fail, fail_message, system, ◌>>=◌}
use rail.Proto.Bytes.{Bytes}

-- One ::read into a buffer of `want` bytes while `input` is still to come.
unfoldable pub read : (ℕ → Bytes → Result ℕ) → ℕ → Bytes → Result (Bytes × Bytes)
read gives want input = do n ← gives want input; ok (take n input, drop n input)

-- while (Done < Dst.size()), with `done` what the buffer holds and `want` what it lacks. A round
-- that moves nothing ends the loop, so `want` rounds are enough.
unfoldable pub read_exact_loop :
    (ℕ → Bytes → Result ℕ) → ℕ → ℕ → Bytes → Bytes → Result (Bytes × Bytes)
read_exact_loop gives fuel zero done input = ok (done, input)
read_exact_loop gives zero (suc want) done input = fail_message "out of fuel"
read_exact_loop gives (suc fuel) (suc want) done input = do
  (got, rest) ← read gives (suc want) input
  if length got == 0
      then fail_message "peer closed"
      else read_exact_loop gives fuel (suc want - length got) (done ++ got) rest

unfoldable pub read_exact : (ℕ → Bytes → Result ℕ) → ℕ → Bytes → Result (Bytes × Bytes)
read_exact gives n input = read_exact_loop gives n n [] input

-- writeAll of one span. A ::write moves some of what is left; anything but a positive count that is
-- not an interruption is an error. `sent` is what has gone out on the descriptor.
unfoldable pub write_all_loop : (Bytes → Result ℕ) → ℕ → Bytes → ℕ → Bytes → Result Bytes
write_all_loop takes zero src done sent =
    if ltb done (length src) then fail_message "out of fuel" else ok sent
write_all_loop takes (suc fuel) src done sent =
    let round = do
      n ← takes (drop done src)
      if n == 0
          then fail (system 0) "write"
          else write_all_loop takes fuel src (done + n) (sent ++ take n (drop done src))
    in if ltb done (length src) then round else ok sent

unfoldable pub write_all : (Bytes → Result ℕ) → Bytes → Bytes → Result Bytes
write_all takes src sent = write_all_loop takes (length src) src 0 sent

-- The iovecs of one turn of writeAll over two spans, rebuilt from `done`.
unfoldable pub parts : Bytes → Bytes → ℕ → List Bytes
parts first second done =
    let first_left = if ltb done (length first) then length first - done else 0 in
    let second_from = if ltb done (length first) then 0 else done - length first in
    (if ltb 0 first_left then drop done first ∷ [] else [])
    ++ (if ltb second_from (length second) then drop second_from second ∷ [] else [])

unfoldable pub gather : List Bytes → Bytes
gather [] = []
gather (part ∷ rest) = part ++ gather rest

unfoldable pub write_two_loop :
    (List Bytes → Result ℕ) → ℕ → Bytes → Bytes → ℕ → Bytes → Result Bytes
write_two_loop takes zero first second done sent =
    if ltb done (length first + length second) then fail_message "out of fuel" else ok sent
write_two_loop takes (suc fuel) first second done sent =
    let now = parts first second done in
    let round = do
      n ← takes now
      if n == 0
          then fail (system 0) "writev"
          else write_two_loop takes fuel first second (done + n) (sent ++ take n (gather now))
    in if ltb done (length first + length second) then round else ok sent

unfoldable pub write_two : (List Bytes → Result ℕ) → Bytes → Bytes → Bytes → Result Bytes
write_two takes first second sent =
    write_two_loop takes (length first + length second) first second 0 sent
