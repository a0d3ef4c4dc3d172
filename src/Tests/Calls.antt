-- ===== src/Tests/Calls.antt =====
-- RPC messages over a stream that moves one or two bytes at a time.
use rail.Prelude.{
  ℕ, ◌≡◌, refl, ap, List, [], ◌∷◌, ◌++◌, length, replicate, length-replicate, min, arith,
}
use rail.Result.{Result, ok, fail_message}
use rail.Proto.Bytes.{Bytes}
use rail.Io.Stream.{gather}
use rail.Io.Stream.Reading.{Delivers}
use rail.Io.Stream.Writing.{Accepts, AcceptsOne}
use rail.Nfs.Xdr.{XdrPayload, be_bytes, of_be_bytes}
use rail.Nfs.Rpc.{send_call, send_reply, receive_call, receive_reply, receive_record, read_call}
use rail.Nfs.Rpc.Records.{cut, receive_record-cut, receive_record-over}
use rail.Nfs.Rpc.Messages.{receive_call-send_call, receive_reply-send_reply}

abbrev byte_by_byte : ℕ → Bytes → Result ℕ
byte_by_byte want input = ok (min 1 (length input))

byte_by_byte-Delivers : Delivers byte_by_byte
byte_by_byte-Delivers want input w i =
    (1, ap ok (omega arith), omega arith, omega arith, omega arith)

abbrev pair_by_pair : List Bytes → Result ℕ
pair_by_pair now = ok (min 2 (length (gather now)))

pair_by_pair-Accepts : Accepts pair_by_pair
pair_by_pair-Accepts now h = (min 2 (length (gather now)), refl, omega arith, omega arith)

abbrev write_pair : Bytes → Result ℕ
write_pair now = ok (min 2 (length now))

write_pair-AcceptsOne : AcceptsOne write_pair
write_pair-AcceptsOne now h = (min 2 (length now), refl, omega arith, omega arith)

abbrev three_parts : List Bytes
three_parts = (1 ∷ 2 ∷ []) ∷ [] ∷ []

receive_record-cut_example :
    receive_record byte_by_byte (cut three_parts (3 ∷ []) ++ (9 ∷ [])) ≡ ok (1 ∷ 2 ∷ 3 ∷ [], 9 ∷ [])
receive_record-cut_example =
    receive_record-cut byte_by_byte three_parts (3 ∷ []) (9 ∷ []) byte_by_byte-Delivers
      (omega arith)

zeros : (n : ℕ) → (b : Bytes) × (length b ≡ n)
zeros n = (replicate n 0, length-replicate n 0)

receive_record-over_example :
    receive_record byte_by_byte (cut [] ((zeros 16777217).0) ++ [])
    ≡ fail_message "rpc record too large"
receive_record-over_example =
    let long : length ((zeros 16777217).0) ≡ 16777217 = (zeros 16777217).1 in
    receive_record-over byte_by_byte [] ((zeros 16777217).0) [] byte_by_byte-Delivers tt
      (omega (arith, long)) (omega (arith, long))

short_record :
    read_call (0 ∷ 0 ∷ 0 ∷ 1 ∷ 0 ∷ 0 ∷ 0 ∷ 0 ∷ 0 ∷ 0 ∷ 0 ∷ 3 ∷ [])
    ≡ fail_message "unsupported rpc version"
unfolding read_call rail.Nfs.Xdr.get_u32 rail.Nfs.Xdr.has_room of_be_bytes
short_record = refl

receive_call-send_call_example :
    (out : Bytes) × (send_call pair_by_pair write_pair 7 100003 6 (4 ∷ 5 ∷ []) [] ≡ ok out)
    × (receive_call byte_by_byte (out ++ (9 ∷ []))
        ≡ ok (
          record { xid = 7; program = 100003; version = 3; procedure = 6; args = 4 ∷ 5 ∷ [] },
          9 ∷ [],
        ))
receive_call-send_call_example =
    receive_call-send_call pair_by_pair write_pair byte_by_byte 7 100003 6 (4 ∷ 5 ∷ []) [] (9 ∷ [])
      pair_by_pair-Accepts write_pair-AcceptsOne byte_by_byte-Delivers (omega arith) (omega arith)
      (omega arith) (omega arith)

abbrev page : XdrPayload
page = record { body = 1 ∷ []; tail = 2 ∷ []; pad = 3 }

receive_reply-send_reply_example :
    (out : Bytes) × (send_reply pair_by_pair write_pair 7 0 page [] ≡ ok out)
    × (receive_reply byte_by_byte (out ++ [])
        ≡ ok (record { xid = 7; status = 0; results = 1 ∷ 2 ∷ 0 ∷ 0 ∷ 0 ∷ [] }, []))
receive_reply-send_reply_example =
    receive_reply-send_reply pair_by_pair write_pair byte_by_byte 7 0 page [] []
      pair_by_pair-Accepts write_pair-AcceptsOne byte_by_byte-Delivers (omega arith) (omega arith)
      (omega arith) (omega arith)
