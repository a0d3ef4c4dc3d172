-- ===== src/Proto/Frame.antt =====
-- ControlChannel of src/proto/control-channel.cc: one message as a frame, magic, type and length
-- ahead of the payload, and the next frame off a stream. The two calls of readExact are those of
-- `Io.Stream`, over what the peer has sent and is not read yet.
pub mod Sequence
use rail.Prelude.{
  ℕ, ◌+◌, ◌-◌, ◌*◌, ◌%◌, ◌^◌, [], ◌++◌, length, take, drop, replicate, ltb, ◌==◌, not,
  if◌then◌else◌,
}
use rail.Result.{Result, ok, fail_message, ◌>>=◌}
use rail.Io.Stream.{read_exact}
use rail.Proto.Kind.{to_wire}
use rail.Proto.Bytes.{Bytes, le_bytes, of_le_bytes}
use rail.Proto.Message.{Message, type_of}
use rail.Proto.Codec.Whole.{encode, decode}

abbrev pub magic : ℕ
magic = 0x5241494c

-- kMaxFrame = 64u << 20
abbrev pub max_frame : ℕ
max_frame = 64 * 2 ^ 20

abbrev pub header_size : ℕ
header_size = 10

-- std::memcpy(OutBuf.data() + At, …)
unfoldable pub overwrite : ℕ → Bytes → Bytes → Bytes
overwrite at bytes out = take at out ++ (bytes ++ drop (at + length bytes) out)

-- What sendClaimed hands to writeAll: room for the header, the payload behind it, and then the
-- header.
unfoldable pub frame : Message → Bytes
unfolding overwrite
frame m =
    let out = encode m (replicate header_size 0) in
    let size = (length out - header_size) % 2 ^ 32 in
    overwrite 6 (le_bytes 4 size)
      (overwrite 4 (le_bytes 2 (to_wire (type_of m))) (overwrite 0 (le_bytes 4 magic) out))

-- receive(): the message and what is left of the stream.
unfoldable pub receive : (ℕ → Bytes → Result ℕ) → Bytes → Result (Message × Bytes)
receive gives input = do
  (header, rest) ← read_exact gives header_size input
  let wire = of_le_bytes (take 2 (drop 4 header))
  let size = of_le_bytes (take 4 (drop 6 header))
  if not (of_le_bytes (take 4 header) == magic)
      then fail_message "bad frame magic"
      else if ltb max_frame size
      then fail_message "frame too large"
      else do
        (payload, left) ← (if ltb 0 size then read_exact gives size rest else ok ([], rest))
        m ← decode wire payload
        ok (m, left)
