-- ===== src/Tests/Wire.antt =====
-- The wire protocol: runs and instances.
use rail.Prelude.{ℕ, ◌≡◌, refl, ap, List, [], ◌∷◌, ◌++◌, length, take, replicate, min, arith}
use rail.Result.{Error, Result, ok, err, fail_message}
use rail.Io.Stream.{read_exact, write_all, write_two, gather}
use rail.Io.Stream.Reading.{Delivers, Ends, read_exact-take, read_exact-closed}
use rail.Io.Stream.Writing.{Accepts, AcceptsOne, write_all-all, write_two-all}
use rail.Proto.Bytes.{Bytes, le_bytes}
use rail.Proto.Kind.{to_wire, of_wire}
use rail.Proto.Writer
use rail.Proto.Message.{Message, type_of, stat, end, signature}
use rail.Proto.Codec.Lookup.{write_stat}
use rail.Proto.Codec.Whole.{encode, decode}
use rail.Proto.RoundTrip.Whole.{Fits, decode-encode}
use rail.Proto.Prefix.Whole.{decode_truncated}
use rail.Proto.Typed.{type_of-decode}
use rail.Proto.Frame.{frame}
use rail.Proto.Frame.Sequence.{frames, receive_all, receive_all-frames}

abbrev asked : Message
asked = stat (record { id = 7; path = 0x61 ∷ 0x62 ∷ [] })

abbrev asked_payload : Bytes
asked_payload = 7 ∷ 0 ∷ 0 ∷ 0 ∷ 0 ∷ 0 ∷ 0 ∷ 0 ∷ 2 ∷ 0 ∷ 0 ∷ 0 ∷ 0x61 ∷ 0x62 ∷ []

encode-asked : encode asked [] ≡ asked_payload
unfolding encode write_stat Writer.◌>>◌ Writer.u64 Writer.str Writer.u32 Writer.raw le_bytes
encode-asked = refl

asked-Fits : Fits asked
asked-Fits = record { id = omega arith; path = omega arith }

abbrev sums : Message
sums = signature (record {
  block_length = 700;
  strong_length = 2;
  file_length = 800;
  sums =
      record { weak = 5; strong = replicate 16 1 }
      ∷ record { weak = 6; strong = replicate 16 2 }
      ∷ [];
})

sums-Fits : Fits sums
sums-Fits = omega arith

decode-encode_example : decode (to_wire (type_of sums)) (encode sums [] ++ (9 ∷ [])) ≡ ok sums
decode-encode_example = decode-encode sums (9 ∷ []) sums-Fits

decode_truncated_example :
    (e : Error) × (decode (to_wire (type_of asked)) (take 13 asked_payload) ≡ err e)
decode_truncated_example =
    decode_truncated asked (take 13 asked_payload) [] 0x62 asked-Fits encode-asked

type_of-decode_example : to_wire (type_of asked) ≡ 12
unfolding to_wire type_of of_wire
type_of-decode_example =
    type_of-decode 12 (encode asked [] ++ []) asked (decode-encode asked [] asked-Fits)

-- A system that moves one byte at a time.
abbrev one_byte : ℕ → Bytes → Result ℕ
one_byte want input = ok (min 1 (length input))

one_byte-Delivers : Delivers one_byte
one_byte-Delivers want input w i = (1, ap ok (omega arith), omega arith, omega arith, omega arith)

one_byte-Ends : Ends one_byte
one_byte-Ends want = refl

read_exact-take_example : read_exact one_byte 3 (1 ∷ 2 ∷ 3 ∷ 4 ∷ []) ≡ ok (1 ∷ 2 ∷ 3 ∷ [], 4 ∷ [])
read_exact-take_example =
    read_exact-take one_byte 3 (1 ∷ 2 ∷ 3 ∷ 4 ∷ []) one_byte-Delivers (omega arith)

read_exact-closed_example : read_exact one_byte 3 (1 ∷ 2 ∷ []) ≡ fail_message "peer closed"
read_exact-closed_example =
    read_exact-closed one_byte 3 (1 ∷ 2 ∷ []) one_byte-Delivers one_byte-Ends (omega arith)

abbrev two_bytes : List Bytes → Result ℕ
two_bytes now = ok (min 2 (length (gather now)))

two_bytes-Accepts : Accepts two_bytes
two_bytes-Accepts now h = (min 2 (length (gather now)), refl, omega arith, omega arith)

write_two-all_example :
    write_two two_bytes (1 ∷ 2 ∷ 3 ∷ []) (4 ∷ 5 ∷ []) (0 ∷ []) ≡ ok (0 ∷ 1 ∷ 2 ∷ 3 ∷ 4 ∷ 5 ∷ [])
write_two-all_example =
    write_two-all two_bytes (1 ∷ 2 ∷ 3 ∷ []) (4 ∷ 5 ∷ []) (0 ∷ []) two_bytes-Accepts

abbrev half : Bytes → Result ℕ
half now = ok (min 2 (length now))

half-AcceptsOne : AcceptsOne half
half-AcceptsOne now h = (min 2 (length now), refl, omega arith, omega arith)

write_all-all_example : write_all half (1 ∷ 2 ∷ 3 ∷ []) (0 ∷ []) ≡ ok (0 ∷ 1 ∷ 2 ∷ 3 ∷ [])
write_all-all_example = write_all-all half (1 ∷ 2 ∷ 3 ∷ []) (0 ∷ []) half-AcceptsOne

frame-end : frame end ≡ 0x4c ∷ 0x49 ∷ 0x41 ∷ 0x52 ∷ 11 ∷ 0 ∷ 0 ∷ 0 ∷ 0 ∷ 0 ∷ []
unfolding frame encode Writer.skip le_bytes to_wire type_of
frame-end = refl

receive_all-frames_example :
    receive_all one_byte 2 (frames (asked ∷ end ∷ []) ++ []) ≡ ok (asked ∷ end ∷ [], [])
receive_all-frames_example = receive_all-frames one_byte (asked ∷ end ∷ []) [] one_byte-Delivers (
  (asked-Fits, rw encode-asked (omega arith)),
  ((tt, unfold encode Writer.skip in omega arith), tt),
)
