-- ===== src/Nfs/Rpc/Messages.antt =====
-- What sendCall and sendReply put on the stream is what receiveCall and receiveReply read.
use rail.Prelude.{
  ℕ, ◌+◌, ◌-◌, ◌*◌, ◌^◌, ◌≤◌, ◌<◌, ◌≡◌, refl, ap, ◌∙◌, false, List, [], ◌∷◌, ◌++◌, length, ltb,
  append-nil, append_assoc, length-append, drop-append, arith,
}
use rail.Result.{Result, ok, ◌>>=◌}
use rail.Proto.Bytes.{Bytes}
use rail.Io.Stream.Reading.{Delivers}
use rail.Io.Stream.Writing.{Accepts, AcceptsOne}
use rail.Nfs.Xdr.{
  XdrPayload, XdrWriter, padding, put_u32, be_bytes, get_u32, get_opaque, get_fixed, has_room,
  bytes_left,
}
use rail.Nfs.Xdr.RoundTrip.{wire, get_u32-be_bytes}
use rail.Nfs.Rpc.{
  max_record, program_version, AcceptStatus, Call, ReplyMessage, no_bytes, of_span, payload_size,
  send_record, put_words, send_call, send_reply, reader_of, rest_of, read_call, receive_call,
  read_reply, receive_reply, receive_record,
}
use rail.Nfs.Rpc.Records.{cut, receive_record-cut}
use rail.Nfs.Rpc.Sending.{length-wire, send_record-cut}

-- Words in front of some bytes.
abbrev pub onto : List ℕ → Bytes → Bytes
onto [] args = args
onto (v ∷ words) args = be_bytes v ++ onto words args

put_words-onto :
    (words : List ℕ) (w : XdrWriter) (args : Bytes)
    → (put_words w words).out ++ args ≡ w.out ++ onto words args
unfolding put_words put_u32
put_words-onto [] w args = refl
put_words-onto (v ∷ words) w args =
    put_words-onto words (put_u32 w v) args ∙ append_assoc w.out (be_bytes v) (onto words args)

length-put_words :
    (words : List ℕ) (w : XdrWriter)
    → length (put_words w words).out ≡ length w.out + 4 * length words
unfolding put_words put_u32 be_bytes
length-put_words [] w = omega arith
length-put_words (v ∷ words) w =
    omega (arith, length-put_words words (put_u32 w v), length-append w.out (be_bytes v))

get_opaque-none :
    (rest : Bytes) → get_opaque (reader_of (be_bytes 0 ++ rest)) 400 ≡ ([], reader_of rest)
unfolding get_opaque get_fixed has_room padding
get_opaque-none rest =
    let room : ltb (length rest) 0 ≡ false = ground arith in
    rw (get_u32-be_bytes 0 rest (omega arith), room) refl

rest_of-front : (front args : Bytes) → rest_of (front ++ args) (reader_of args) ≡ args
unfolding bytes_left
rest_of-front front args =
    let size : length (front ++ args) - length args ≡ length front =
      omega (arith, length-append front args) in
    rw size (drop-append front args)

receive_call-of :
    (gives : ℕ → Bytes → Result ℕ) (input record_bytes rest : Bytes) {found : Call}
    → receive_record gives input ≡ ok (record_bytes, rest)
    → read_call record_bytes ≡ ok found
    → receive_call gives input ≡ ok (found, rest)
unfolding receive_call
receive_call-of gives input record_bytes rest got read = rw (got, ◌>>=◌, read) refl

read_call-onto :
    (front args : Bytes) (xid program procedure : ℕ)
    → xid < 2 ^ 32
    → program < 2 ^ 32
    → procedure < 2 ^ 32
    → front ++ args ≡ onto (xid ∷ 0 ∷ 2 ∷ program ∷ 3 ∷ procedure ∷ 0 ∷ 0 ∷ 0 ∷ 0 ∷ []) args
    → read_call (front ++ args)
      ≡ ok
          (record { xid = xid; program = program; version = 3; procedure = procedure; args = args })
unfolding read_call
read_call-onto front args xid program procedure hx hp hq e =
    let first : get_u32 (reader_of (front ++ args))
        ≡ (xid, reader_of (onto (0 ∷ 2 ∷ program ∷ 3 ∷ procedure ∷ 0 ∷ 0 ∷ 0 ∷ 0 ∷ []) args)) =
      ap (λ b. get_u32 (reader_of b)) e ∙ get_u32-be_bytes xid _ hx in
    rw
      (
        first,
        get_u32-be_bytes 0 (onto (2 ∷ program ∷ 3 ∷ procedure ∷ 0 ∷ 0 ∷ 0 ∷ 0 ∷ []) args)
            (omega arith),
        get_u32-be_bytes 2 (onto (program ∷ 3 ∷ procedure ∷ 0 ∷ 0 ∷ 0 ∷ 0 ∷ []) args) (omega arith),
        get_u32-be_bytes program (onto (3 ∷ procedure ∷ 0 ∷ 0 ∷ 0 ∷ 0 ∷ []) args) hp,
        get_u32-be_bytes 3 (onto (procedure ∷ 0 ∷ 0 ∷ 0 ∷ 0 ∷ []) args) (omega arith),
        get_u32-be_bytes procedure (onto (0 ∷ 0 ∷ 0 ∷ 0 ∷ []) args) hq,
        get_u32-be_bytes 0 (onto (0 ∷ 0 ∷ 0 ∷ []) args) (omega arith),
        get_opaque-none (onto (0 ∷ 0 ∷ []) args),
        get_u32-be_bytes 0 (onto (0 ∷ []) args) (omega arith),
        get_opaque-none args,
        rest_of-front front args,
      )
      refl

-- A call whose numbers fit their words, with 40 bytes of header and arguments that are at most
-- kMaxRecord long together: what sendCall puts on the stream, receiveCall reads back, whatever the
-- pieces in which the system writes and reads it, and nothing of what follows.
pub receive_call-send_call :
    (takes_two : List Bytes → Result ℕ) (takes : Bytes → Result ℕ) (gives : ℕ → Bytes → Result ℕ)
    (xid program procedure : ℕ) (args sent rest : Bytes)
    → Accepts takes_two
    → AcceptsOne takes
    → Delivers gives
    → xid < 2 ^ 32
    → program < 2 ^ 32
    → procedure < 2 ^ 32
    → 40 + length args ≤ max_record
    → (out : Bytes) × (send_call takes_two takes xid program procedure args sent ≡ ok (sent ++ out))
      × (receive_call gives (out ++ rest)
          ≡ ok (
            record {
              xid = xid;
              program = program;
              version = program_version;
              procedure = procedure;
              args = args;
            },
            rest,
          ))
unfolding send_call
receive_call-send_call takes_two takes gives xid program procedure args sent rest two one law hx hp
      hq room =
    (cut [] (header ++ args), sends, reads)
  where
    words : List ℕ
    words = xid ∷ 0 ∷ 2 ∷ program ∷ 3 ∷ procedure ∷ 0 ∷ 0 ∷ 0 ∷ 0 ∷ []

    header : Bytes
    header = (put_words no_bytes words).out

    size : length header ≡ 40
    size = length-put_words words no_bytes

    sends :
        send_record takes_two takes header (of_span args) sent
        ≡ ok (sent ++ cut [] (header ++ args))
    sends =
        send_record-cut takes_two takes header (of_span args) sent two one (omega (arith, size))
          (omega arith) (omega (arith, room, size))
        ∙ ap (λ b. ok (sent ++ cut [] (header ++ b))) (append-nil args)

    reads :
        receive_call gives (cut [] (header ++ args) ++ rest)
        ≡ ok (
          record {
            xid = xid;
            program = program;
            version = program_version;
            procedure = procedure;
            args = args;
          },
          rest,
        )
    reads =
        let got : receive_record gives (cut [] (header ++ args) ++ rest)
            ≡ ok (header ++ args, rest) =
          receive_record-cut gives [] (header ++ args) rest law
            (omega (arith, length-append header args, size, room)) in
        receive_call-of gives (cut [] (header ++ args) ++ rest) (header ++ args) rest got (
          read_call-onto header args xid program procedure hx hp hq
            (put_words-onto words no_bytes args))

receive_reply-of :
    (gives : ℕ → Bytes → Result ℕ) (input record_bytes rest : Bytes) {found : ReplyMessage}
    → receive_record gives input ≡ ok (record_bytes, rest)
    → read_reply record_bytes ≡ ok found
    → receive_reply gives input ≡ ok (found, rest)
unfolding receive_reply
receive_reply-of gives input record_bytes rest got read = rw (got, ◌>>=◌, read) refl

read_reply-onto :
    (front results : Bytes) (xid status : ℕ)
    → xid < 2 ^ 32
    → status < 2 ^ 32
    → front ++ results ≡ onto (xid ∷ 1 ∷ 0 ∷ 0 ∷ 0 ∷ status ∷ []) results
    → read_reply (front ++ results) ≡ ok (record { xid = xid; status = status; results = results })
unfolding read_reply
read_reply-onto front results xid status hx hs e =
    let first : get_u32 (reader_of (front ++ results))
        ≡ (xid, reader_of (onto (1 ∷ 0 ∷ 0 ∷ 0 ∷ status ∷ []) results)) =
      ap (λ b. get_u32 (reader_of b)) e ∙ get_u32-be_bytes xid _ hx in
    rw
      (
        first,
        get_u32-be_bytes 1 (onto (0 ∷ 0 ∷ 0 ∷ status ∷ []) results) (omega arith),
        get_u32-be_bytes 0 (onto (0 ∷ 0 ∷ status ∷ []) results) (omega arith),
        get_u32-be_bytes 0 (onto (0 ∷ status ∷ []) results) (omega arith),
        get_opaque-none (onto (status ∷ []) results),
        get_u32-be_bytes status results hs,
        rest_of-front front results,
      )
      refl

-- A reply whose status fits its word, with padding of at most 3 bytes and 24 bytes of header and
-- payload that are at most kMaxRecord long together: what sendReply puts on the stream, receiveReply
-- reads back, the status and the payload as it stands on the wire, body, tail and padding, whatever
-- the pieces in which the system writes and reads it.
pub receive_reply-send_reply :
    (takes_two : List Bytes → Result ℕ) (takes : Bytes → Result ℕ) (gives : ℕ → Bytes → Result ℕ)
    (xid : ℕ) (status : AcceptStatus) (results : XdrPayload) (sent rest : Bytes)
    → Accepts takes_two
    → AcceptsOne takes
    → Delivers gives
    → xid < 2 ^ 32
    → status < 2 ^ 32
    → results.pad ≤ 3
    → 24 + payload_size results ≤ max_record
    → (out : Bytes) × (send_reply takes_two takes xid status results sent ≡ ok (sent ++ out))
      × (receive_reply gives (out ++ rest)
          ≡ ok (record { xid = xid; status = status; results = wire results }, rest))
unfolding send_reply
receive_reply-send_reply takes_two takes gives xid status results sent rest two one law hx hs padded
      room =
    (cut [] (header ++ wire results), sends, reads)
  where
    words : List ℕ
    words = xid ∷ 1 ∷ 0 ∷ 0 ∷ 0 ∷ status ∷ []

    header : Bytes
    header = (put_words no_bytes words).out

    size : length header ≡ 24
    size = length-put_words words no_bytes

    sends :
        send_record takes_two takes header results sent
        ≡ ok (sent ++ cut [] (header ++ wire results))
    sends =
        send_record-cut takes_two takes header results sent two one (omega (arith, size)) padded
          (omega (arith, room, size))

    reads :
        receive_reply gives (cut [] (header ++ wire results) ++ rest)
        ≡ ok (record { xid = xid; status = status; results = wire results }, rest)
    reads =
        let got : receive_record gives (cut [] (header ++ wire results) ++ rest)
            ≡ ok (header ++ wire results, rest) =
          receive_record-cut gives [] (header ++ wire results) rest law
            (omega (arith, length-append header (wire results), length-wire results, size, room)) in
        receive_reply-of gives (cut [] (header ++ wire results) ++ rest) (header ++ wire results)
          rest got
          (read_reply-onto header (wire results) xid status hx hs
            (put_words-onto words no_bytes (wire results)))
