-- ===== src/Proto/RoundTrip/Whole.antt =====
-- Every message survives the wire: which values a message can carry, and decoding after encoding.
use rail.Prelude.{◌≡◌, ◌++◌, []}
use rail.Result.{ok}
use rail.Proto.Kind.{to_wire, of_wire-to_wire}
use rail.Proto.Bytes.{Bytes}
use rail.Proto.Message.{
  Message, type_of, hello, hello_ack, file_header, signature, copy, literal, done, receipt, end,
  stat, stat_reply, list, list_reply, read, write, transfer_reply, peer_endpoint, fetch, store,
  stream_reply, stream_digest, meta, meta_reply, stat_fs, stat_fs_reply, open_file, open_reply,
  close,
}
use rail.Proto.Inverse.{Inverse, last}
use rail.Proto.Codec.Whole.{encode, read_message, wrap, finish, decode_as, decode}
use rail.Proto.RoundTrip.Transfer.{
  HelloFits, HelloAckFits, FileHeaderFits, CopyFits, LiteralFits, DoneFits, ReceiptFits,
  hello_inverse, hello_ack_inverse, file_header_inverse, copy_inverse, literal_inverse,
  done_inverse, receipt_inverse,
}
use rail.Proto.RoundTrip.Lookup.{
  StatRequestFits, StatReplyFits, ListRequestFits, StatFsRequestFits, StatFsReplyFits,
  OpenRequestFits, OpenReplyFits, CloseRequestFits, stat_inverse, stat_reply_inverse, list_inverse,
  stat_fs_inverse, stat_fs_reply_inverse, open_file_inverse, open_reply_inverse, close_inverse,
}
use rail.Proto.RoundTrip.Bulk.{
  ReadRequestFits, WriteRequestFits, TransferReplyFits, PeerEndpointFits, FetchRequestFits,
  StoreRequestFits, StreamReplyFits, StreamDigestFits, read_inverse, write_inverse,
  transfer_reply_inverse, peer_endpoint_inverse, fetch_inverse, store_inverse, stream_reply_inverse,
  stream_digest_inverse,
}
use rail.Proto.RoundTrip.Meta.{MetaRequestFits, MetaReplyFits, meta_inverse, meta_reply_inverse}
use rail.Proto.RoundTrip.Repeated.{
  SignatureFits, ListReplyFits, signature_inverse, list_reply_inverse, nothing,
}

-- Every number fits its field, every string its uint32_t length, every digest its 16 bytes.
abbrev pub Fits : Message → Type 0
Fits (hello v) = HelloFits v
Fits (hello_ack v) = HelloAckFits v
Fits (file_header v) = FileHeaderFits v
Fits (signature v) = SignatureFits v
Fits (copy v) = CopyFits v
Fits (literal v) = LiteralFits v
Fits (done v) = DoneFits v
Fits (receipt v) = ReceiptFits v
Fits end = Unit
Fits (stat v) = StatRequestFits v
Fits (stat_reply v) = StatReplyFits v
Fits (list v) = ListRequestFits v
Fits (list_reply v) = ListReplyFits v
Fits (read v) = ReadRequestFits v
Fits (write v) = WriteRequestFits v
Fits (transfer_reply v) = TransferReplyFits v
Fits (peer_endpoint v) = PeerEndpointFits v
Fits (fetch v) = FetchRequestFits v
Fits (store v) = StoreRequestFits v
Fits (stream_reply v) = StreamReplyFits v
Fits (stream_digest v) = StreamDigestFits v
Fits (meta v) = MetaRequestFits v
Fits (meta_reply v) = MetaReplyFits v
Fits (stat_fs v) = StatFsRequestFits v
Fits (stat_fs_reply v) = StatFsReplyFits v
Fits (open_file v) = OpenRequestFits v
Fits (open_reply v) = OpenReplyFits v
Fits (close v) = CloseRequestFits v

pub message_inverse : (m : Message) → Fits m → Inverse (encode m) (read_message (type_of m)) (ok m)
unfolding encode read_message type_of wrap
message_inverse (hello v) h = last _ (hello_inverse h)
message_inverse (hello_ack v) h = last _ (hello_ack_inverse h)
message_inverse (file_header v) h = last _ (file_header_inverse h)
message_inverse (signature v) h = last _ (signature_inverse h)
message_inverse (copy v) h = last _ (copy_inverse h)
message_inverse (literal v) h = last _ (literal_inverse h)
message_inverse (done v) h = last _ (done_inverse h)
message_inverse (receipt v) h = last _ (receipt_inverse h)
message_inverse end h = nothing (ok end)
message_inverse (stat v) h = last _ (stat_inverse h)
message_inverse (stat_reply v) h = last _ (stat_reply_inverse h)
message_inverse (list v) h = last _ (list_inverse h)
message_inverse (list_reply v) h = last _ (list_reply_inverse h)
message_inverse (read v) h = last _ (read_inverse h)
message_inverse (write v) h = last _ (write_inverse h)
message_inverse (transfer_reply v) h = last _ (transfer_reply_inverse h)
message_inverse (peer_endpoint v) h = last _ (peer_endpoint_inverse h)
message_inverse (fetch v) h = last _ (fetch_inverse h)
message_inverse (store v) h = last _ (store_inverse h)
message_inverse (stream_reply v) h = last _ (stream_reply_inverse h)
message_inverse (stream_digest v) h = last _ (stream_digest_inverse h)
message_inverse (meta v) h = last _ (meta_inverse h)
message_inverse (meta_reply v) h = last _ (meta_reply_inverse h)
message_inverse (stat_fs v) h = last _ (stat_fs_inverse h)
message_inverse (stat_fs_reply v) h = last _ (stat_fs_reply_inverse h)
message_inverse (open_file v) h = last _ (open_file_inverse h)
message_inverse (open_reply v) h = last _ (open_reply_inverse h)
message_inverse (close v) h = last _ (close_inverse h)

-- The payload that encoding a message makes, with any bytes behind it, decodes to that message.
pub decode-encode :
    (m : Message) (rest : Bytes)
    → Fits m
    → decode (to_wire (type_of m)) (encode m [] ++ rest) ≡ ok m
unfolding decode decode_as finish
decode-encode m rest h =
    let p = message_inverse m h in rw (of_wire-to_wire (type_of m), p.writes [], p.reads rest)
