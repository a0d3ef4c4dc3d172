-- ===== src/Nfs/Rpc.antt =====
-- The RPC messages of src/nfs/rpc.cc and include/rail/nfs/rpc.h, on XDR and the stream: a record is
-- cut in fragments, each behind a marker of four bytes, whose highest bit says that it is the last.
pub mod Records
pub mod Sending
pub mod Messages
use Prim.Native.Nat.{bit_or}
use rail.Prelude.{
  ℕ, zero, suc, ◌+◌, ◌-◌, ◌*◌, ◌/◌, ◌%◌, ◌^◌, Bool, true, false, not, List, [], ◌∷◌, ◌++◌, length,
  drop, replicate, min, ltb, ◌==◌, if◌then◌else◌,
}
use rail.Result.{Result, ok, err, fail_message, ◌>>=◌}
use rail.Proto.Bytes.{Bytes}
use rail.Io.Stream.{read_exact, write_all, write_two}
use rail.Nfs.Xdr.{
  XdrPayload, XdrWriter, XdrReader, put_u32, put_fixed, payload, of_be_bytes, get_u32, get_opaque,
  bytes_left,
}

-- kMaxRecord, kProgramVersion, kCall, kReply, kRpcVersion, kMessageAccepted, kAuthNone and
-- kLastFragment
abbrev pub max_record : ℕ
max_record = 16 * 2 ^ 20

abbrev pub program_version : ℕ
program_version = 3

abbrev pub call_kind : ℕ
call_kind = 0

abbrev pub reply_kind : ℕ
reply_kind = 1

abbrev pub rpc_version : ℕ
rpc_version = 2

abbrev pub message_accepted : ℕ
message_accepted = 0

abbrev pub auth_none : ℕ
auth_none = 0

abbrev pub last_fragment : ℕ
last_fragment = 1 * 2 ^ 31

-- AcceptStatus, which a cast makes of any number that was received.
abbrev pub AcceptStatus : Type 0
AcceptStatus = ℕ

pub record Call : Type 0 where
  pub xid : ℕ
  pub program : ℕ
  pub version : ℕ
  pub procedure : ℕ
  pub args : Bytes

pub record ReplyMessage : Type 0 where
  pub xid : ℕ
  pub status : AcceptStatus
  pub results : Bytes

-- What receiveRecord does with one fragment behind its marker: the record with the fragment, and
-- what is not read yet.
unfoldable pub receive_fragment :
    (ℕ → Bytes → Result ℕ) → ℕ → Bytes → Bytes → Result (Bytes × Bytes)
receive_fragment gives header record_bytes input =
    let n = header % last_fragment in
    if ltb max_record (length record_bytes + n)
    then fail_message "rpc record too large"
    else if ltb 0 n
    then (do (fragment, rest) ← read_exact gives n input; ok (record_bytes ++ fragment, rest))
    else ok (record_bytes, input)

-- for (;;), where a round reads a marker at least.
unfoldable pub receive_fragments :
    (ℕ → Bytes → Result ℕ) → ℕ → Bytes → Bytes → Result (Bytes × Bytes)
receive_fragments gives zero record_bytes input = fail_message "out of fuel"
receive_fragments gives (suc fuel) record_bytes input = do
  (marker, after) ← read_exact gives 4 input
  let header = of_be_bytes 0 marker
  (now, rest) ← receive_fragment gives header record_bytes after
  if not (header / last_fragment % 2 == 0)
      then ok (now, rest)
      else receive_fragments gives fuel now rest

unfoldable pub receive_record : (ℕ → Bytes → Result ℕ) → Bytes → Result (Bytes × Bytes)
receive_record gives input = receive_fragments gives (suc (length input)) [] input

abbrev pub no_bytes : XdrWriter
no_bytes = record { out = []; tail = []; tail_pad = 0 }

-- XdrPayload of a span
abbrev pub of_span : Bytes → XdrPayload
of_span bytes = record { body = bytes; tail = []; pad = 0 }

-- XdrPayload::size
abbrev pub payload_size : XdrPayload → ℕ
payload_size p = length p.body + length p.tail + p.pad

-- The last write of sendRecord's first two branches.
abbrev pub send_pad : (Bytes → Result ℕ) → Bytes → Bytes → Result Bytes
send_pad takes pad sent = if length pad == 0 then ok sent else write_all takes pad sent

-- sendRecord. `takes_two` is writev and `takes` is write; the result is what has gone out.
unfoldable pub send_record :
    (List Bytes → Result ℕ) → (Bytes → Result ℕ) → Bytes → XdrPayload → Bytes → Result Bytes
send_record takes_two takes header body sent =
    let size = (length header + payload_size body) % 2 ^ 32 in
    let out = (put_fixed (put_u32 no_bytes (bit_or size last_fragment)) header).out in
    let pad = replicate (min body.pad 3) 0 in
    if length body.tail == 0
    then (do sent1 ← write_two takes_two out body.body sent; send_pad takes pad sent1)
    else if length body.body == 0
    then (do sent1 ← write_two takes_two out body.tail sent; send_pad takes pad sent1)
    else (do
      sent1 ← write_two takes_two out body.body sent
      write_two takes_two body.tail pad sent1)

unfoldable pub put_words : XdrWriter → List ℕ → XdrWriter
put_words w [] = w
put_words w (v ∷ rest) = put_words (put_u32 w v) rest

-- sendCall, with what has gone out.
unfoldable pub send_call :
    (List Bytes → Result ℕ) → (Bytes → Result ℕ) → ℕ → ℕ → ℕ → Bytes → Bytes → Result Bytes
send_call takes_two takes xid program procedure args sent =
    let header = put_words no_bytes (
      xid ∷ call_kind ∷ rpc_version ∷ program ∷ program_version ∷ procedure ∷ auth_none ∷ 0
      ∷ auth_none ∷ 0 ∷ []) in
    send_record takes_two takes header.out (of_span args) sent

-- sendReply
unfoldable pub send_reply :
    (List Bytes → Result ℕ)
    → (Bytes → Result ℕ)
    → ℕ
    → AcceptStatus
    → XdrPayload
    → Bytes
    → Result Bytes
send_reply takes_two takes xid status results sent =
    let header =
      put_words no_bytes (xid ∷ reply_kind ∷ message_accepted ∷ auth_none ∷ 0 ∷ status ∷ []) in
    send_record takes_two takes header.out results sent

abbrev pub reader_of : Bytes → XdrReader
reader_of bytes = record { unread = bytes; ok = true }

-- The bytes of a record that the reader has left.
abbrev pub rest_of : Bytes → XdrReader → Bytes
rest_of record_bytes r = drop (length record_bytes - bytes_left r) record_bytes

-- receiveCall behind receiveRecord
unfoldable pub read_call : Bytes → Result Call
read_call record_bytes =
    let (xid, r1) = get_u32 (reader_of record_bytes) in
    let (kind, r2) = get_u32 r1 in
    let (rpc, r3) = get_u32 r2 in
    let (program, r4) = get_u32 r3 in
    let (version, r5) = get_u32 r4 in
    let (procedure, r6) = get_u32 r5 in
    let (flavor, r7) = get_u32 r6 in
    let (credential, r8) = get_opaque r7 400 in
    let (verifier_flavor, r9) = get_u32 r8 in
    let (verifier, r10) = get_opaque r9 400 in
    if not (kind == call_kind)
    then fail_message "not an rpc call"
    else if not (rpc == rpc_version)
    then fail_message "unsupported rpc version"
    else if not r10.ok
    then fail_message "malformed rpc call header"
    else ok (record {
      xid = xid;
      program = program;
      version = version;
      procedure = procedure;
      args = rest_of record_bytes r10;
    })

-- receiveCall, with what is not read yet.
unfoldable pub receive_call : (ℕ → Bytes → Result ℕ) → Bytes → Result (Call × Bytes)
receive_call gives input = do
  (record_bytes, rest) ← receive_record gives input
  call ← read_call record_bytes
  ok (call, rest)

-- receiveReply behind receiveRecord
unfoldable pub read_reply : Bytes → Result ReplyMessage
read_reply record_bytes =
    let (xid, r1) = get_u32 (reader_of record_bytes) in
    let (kind, r2) = get_u32 r1 in
    let (accepted, r3) = get_u32 r2 in
    let (flavor, r4) = get_u32 r3 in
    let (verifier, r5) = get_opaque r4 400 in
    let (status, r6) = get_u32 r5 in
    if not (kind == reply_kind)
    then fail_message "not an rpc reply"
    else if not (accepted == message_accepted)
    then fail_message "the call was denied"
    else if not r6.ok
    then fail_message "malformed rpc reply header"
    else ok (record { xid = xid; status = status; results = rest_of record_bytes r6 })

-- receiveReply, with what is not read yet.
unfoldable pub receive_reply : (ℕ → Bytes → Result ℕ) → Bytes → Result (ReplyMessage × Bytes)
receive_reply gives input = do
  (record_bytes, rest) ← receive_record gives input
  reply ← read_reply record_bytes
  ok (reply, rest)
