-- ===== src/Proto/Codec/Whole.antt =====
-- encode and decode of src/proto/codec.cc: a message to its payload, and a payload back, by the
-- type that its frame names.
use Prim.Native.String
use rail.Prelude.{ℕ, true, Option, none, some, if◌then◌else◌}
use rail.Result.{Result, ok, err, fail_message}
use rail.Proto.Kind.{MessageType, of_wire, type_name}
use rail.Proto.Bytes.{Bytes}
use rail.Proto.Writer.{Writer, skip}
use rail.Proto.Reader.{Reader, Read, pure, ◌>>=◌}
use rail.Proto.Message.{
  Message, hello, hello_ack, file_header, signature, copy, literal, done, receipt, end, stat,
  stat_reply, list, list_reply, read, write, transfer_reply, peer_endpoint, fetch, store,
  stream_reply, stream_digest, meta, meta_reply, stat_fs, stat_fs_reply, open_file, open_reply,
  close,
}
use rail.Proto.Codec.Transfer.{
  write_hello, read_hello, write_hello_ack, read_hello_ack, write_file_header, read_file_header,
  write_copy, read_copy, write_literal, read_literal, write_done, read_done, write_receipt,
  read_receipt,
}
use rail.Proto.Codec.Lookup.{
  write_stat, read_stat, write_stat_reply, read_stat_reply, write_list, read_list, write_stat_fs,
  read_stat_fs, write_stat_fs_reply, read_stat_fs_reply, write_open_file, read_open_file,
  write_open_reply, read_open_reply, write_close, read_close,
}
use rail.Proto.Codec.Bulk.{
  write_read, read_read, write_write, read_write, write_transfer_reply, read_transfer_reply,
  write_peer_endpoint, read_peer_endpoint, write_fetch, read_fetch, write_store, read_store,
  write_stream_reply, read_stream_reply, write_stream_digest, read_stream_digest,
}
use rail.Proto.Codec.Meta.{write_meta, read_meta, write_meta_reply, read_meta_reply}
use rail.Proto.Codec.Repeated.{write_signature, read_signature, write_list_reply, read_list_reply}

unfoldable pub encode : Message → Writer
encode (hello v) = write_hello v
encode (hello_ack v) = write_hello_ack v
encode (file_header v) = write_file_header v
encode (signature v) = write_signature v
encode (copy v) = write_copy v
encode (literal v) = write_literal v
encode (done v) = write_done v
encode (receipt v) = write_receipt v
encode end = skip
encode (stat v) = write_stat v
encode (stat_reply v) = write_stat_reply v
encode (list v) = write_list v
encode (list_reply v) = write_list_reply v
encode (read v) = write_read v
encode (write v) = write_write v
encode (transfer_reply v) = write_transfer_reply v
encode (peer_endpoint v) = write_peer_endpoint v
encode (fetch v) = write_fetch v
encode (store v) = write_store v
encode (stream_reply v) = write_stream_reply v
encode (stream_digest v) = write_stream_digest v
encode (meta v) = write_meta v
encode (meta_reply v) = write_meta_reply v
encode (stat_fs v) = write_stat_fs v
encode (stat_fs_reply v) = write_stat_fs_reply v
encode (open_file v) = write_open_file v
encode (open_reply v) = write_open_reply v
encode (close v) = write_close v

-- A result with its message wrapped, or the refusal.
unfoldable pub wrap {ℓ} : {A : Type ℓ} → (A → Message) → Result A → Result Message
wrap make (ok v) = ok (make v)
wrap make (err e) = err e

-- The switch of `decode`. A refusal inside a case is its result.
unfoldable pub read_message : MessageType → Read (Result Message)
read_message MessageType.hello = do v ← read_hello; pure (ok (hello v))
read_message MessageType.hello_ack = do v ← read_hello_ack; pure (ok (hello_ack v))
read_message MessageType.file_header = do v ← read_file_header; pure (ok (file_header v))
read_message MessageType.signature = do v ← read_signature; pure (wrap signature v)
read_message MessageType.copy = do v ← read_copy; pure (ok (copy v))
read_message MessageType.literal = do v ← read_literal; pure (ok (literal v))
read_message MessageType.done = do v ← read_done; pure (ok (done v))
read_message MessageType.receipt = do v ← read_receipt; pure (ok (receipt v))
read_message MessageType.end = pure (ok end)
read_message MessageType.stat = do v ← read_stat; pure (ok (stat v))
read_message MessageType.stat_reply = do v ← read_stat_reply; pure (ok (stat_reply v))
read_message MessageType.list = do v ← read_list; pure (ok (list v))
read_message MessageType.list_reply = do v ← read_list_reply; pure (wrap list_reply v)
read_message MessageType.read = do v ← read_read; pure (ok (read v))
read_message MessageType.write = do v ← read_write; pure (ok (write v))
read_message MessageType.transfer_reply = do v ← read_transfer_reply; pure (ok (transfer_reply v))
read_message MessageType.peer_endpoint = do v ← read_peer_endpoint; pure (ok (peer_endpoint v))
read_message MessageType.fetch = do v ← read_fetch; pure (ok (fetch v))
read_message MessageType.store = do v ← read_store; pure (ok (store v))
read_message MessageType.stream_reply = do v ← read_stream_reply; pure (ok (stream_reply v))
read_message MessageType.stream_digest = do v ← read_stream_digest; pure (ok (stream_digest v))
read_message MessageType.meta = do v ← read_meta; pure (ok (meta v))
read_message MessageType.meta_reply = do v ← read_meta_reply; pure (ok (meta_reply v))
read_message MessageType.stat_fs = do v ← read_stat_fs; pure (ok (stat_fs v))
read_message MessageType.stat_fs_reply = do v ← read_stat_fs_reply; pure (ok (stat_fs_reply v))
read_message MessageType.open_file = do v ← read_open_file; pure (ok (open_file v))
read_message MessageType.open_reply = do v ← read_open_reply; pure (ok (open_reply v))
read_message MessageType.close = do v ← read_close; pure (ok (close v))

-- What follows the switch: a case that refused has returned already, and a reader that ran past the
-- end makes the message void. Bytes that are left are not looked at.
unfoldable pub finish : MessageType → Result Message × Reader → Result Message
finish t (err e, r) = err e
finish t (ok m, r) = if r.ok then ok m else fail_message (String.◌++◌ "truncated " (type_name t))

unfoldable pub decode_as : Option MessageType → Bytes → Result Message
decode_as none payload = fail_message "unknown message type"
decode_as (some t) payload = finish t (read_message t (record { unread = payload; ok = true }))

unfoldable pub decode : ℕ → Bytes → Result Message
decode wire payload = decode_as (of_wire wire) payload
