-- ===== src/Proto/RoundTrip/Bulk.antt =====
-- The bulk messages: which values their fields can carry, and that decoding undoes encoding.
use rail.Prelude.{◌≡◌, ◌<◌, ◌^◌, length}
use rail.Proto.Message.{
  ReadRequest, WriteRequest, TransferReply, PeerEndpoint, FetchRequest, StoreRequest, StreamReply,
  StreamDigest,
}
use rail.Proto.Inverse
use rail.Proto.Inverse.{Inverse, bind, last}
use rail.Proto.Codec.Bulk.{
  write_read, read_read, write_write, read_write, write_transfer_reply, read_transfer_reply,
  write_peer_endpoint, read_peer_endpoint, write_fetch, read_fetch, write_store, read_store,
  write_stream_reply, read_stream_reply, write_stream_digest, read_stream_digest,
}

pub record ReadRequestFits (v : ReadRequest) : Type 0 where
  pub id : v.id < 2 ^ 64
  pub path : length v.path < 2 ^ 32
  pub offset : v.offset < 2 ^ 64
  pub length_fits : v.length < 2 ^ 32
  pub handle : v.handle < 2 ^ 64

pub read_inverse : {v : ReadRequest} → ReadRequestFits v → Inverse (write_read v) read_read v
unfolding write_read read_read
read_inverse h = bind _ (Inverse.u64 h.id) (
    bind _ (Inverse.str h.path) (
      bind _ (Inverse.u64 h.offset)
        (bind _ (Inverse.u32 h.length_fits) (last _ (Inverse.u64 h.handle)))))

pub record WriteRequestFits (v : WriteRequest) : Type 0 where
  pub id : v.id < 2 ^ 64
  pub path : length v.path < 2 ^ 32
  pub offset : v.offset < 2 ^ 64
  pub length_fits : v.length < 2 ^ 32
  pub payload : length v.payload ≡ 16
  pub handle : v.handle < 2 ^ 64

pub write_inverse : {v : WriteRequest} → WriteRequestFits v → Inverse (write_write v) read_write v
unfolding write_write read_write
write_inverse h = bind _ (Inverse.u64 h.id) (
    bind _ (Inverse.str h.path) (
      bind _ (Inverse.u64 h.offset) (
        bind _ (Inverse.u32 h.length_fits)
          (bind _ Inverse.flag (bind _ (Inverse.hash h.payload) (last _ (Inverse.u64 h.handle)))))))

pub record TransferReplyFits (v : TransferReply) : Type 0 where
  pub id : v.id < 2 ^ 64
  pub length_fits : v.length < 2 ^ 32
  pub file_size : v.file_size < 2 ^ 64
  pub payload : length v.payload ≡ 16
  pub error : length v.error < 2 ^ 32

pub transfer_reply_inverse :
    {v : TransferReply}
    → TransferReplyFits v
    → Inverse (write_transfer_reply v) read_transfer_reply v
unfolding write_transfer_reply read_transfer_reply
transfer_reply_inverse h = bind _ (Inverse.u64 h.id) (
    bind _ (Inverse.u32 h.length_fits) (
      bind _ (Inverse.u64 h.file_size)
        (bind _ Inverse.flag (bind _ (Inverse.hash h.payload) (last _ (Inverse.str h.error))))))

pub record PeerEndpointFits (v : PeerEndpoint) : Type 0 where
  pub blob : length v.blob < 2 ^ 32

pub peer_endpoint_inverse :
    {v : PeerEndpoint} → PeerEndpointFits v → Inverse (write_peer_endpoint v) read_peer_endpoint v
unfolding write_peer_endpoint read_peer_endpoint
peer_endpoint_inverse h = last _ (Inverse.str h.blob)

pub record FetchRequestFits (v : FetchRequest) : Type 0 where
  pub id : v.id < 2 ^ 64
  pub tag_base : v.tag_base < 2 ^ 64
  pub path : length v.path < 2 ^ 32
  pub offset : v.offset < 2 ^ 64
  pub length_fits : v.length < 2 ^ 64
  pub handle : v.handle < 2 ^ 64

pub fetch_inverse : {v : FetchRequest} → FetchRequestFits v → Inverse (write_fetch v) read_fetch v
unfolding write_fetch read_fetch
fetch_inverse h = bind _ (Inverse.u64 h.id) (
    bind _ (Inverse.u64 h.tag_base) (
      bind _ (Inverse.str h.path) (
        bind _ (Inverse.u64 h.offset)
          (bind _ (Inverse.u64 h.length_fits) (last _ (Inverse.u64 h.handle))))))

pub record StoreRequestFits (v : StoreRequest) : Type 0 where
  pub id : v.id < 2 ^ 64
  pub tag_base : v.tag_base < 2 ^ 64
  pub path : length v.path < 2 ^ 32
  pub offset : v.offset < 2 ^ 64
  pub length_fits : v.length < 2 ^ 64
  pub handle : v.handle < 2 ^ 64

pub store_inverse : {v : StoreRequest} → StoreRequestFits v → Inverse (write_store v) read_store v
unfolding write_store read_store
store_inverse h = bind _ (Inverse.u64 h.id) (
    bind _ (Inverse.u64 h.tag_base) (
      bind _ (Inverse.str h.path) (
        bind _ (Inverse.u64 h.offset) (
          bind _ (Inverse.u64 h.length_fits)
            (bind _ Inverse.flag (last _ (Inverse.u64 h.handle)))))))

pub record StreamReplyFits (v : StreamReply) : Type 0 where
  pub id : v.id < 2 ^ 64
  pub length_fits : v.length < 2 ^ 64
  pub error : length v.error < 2 ^ 32

pub stream_reply_inverse :
    {v : StreamReply} → StreamReplyFits v → Inverse (write_stream_reply v) read_stream_reply v
unfolding write_stream_reply read_stream_reply
stream_reply_inverse h =
    bind _ (Inverse.u64 h.id)
      (bind _ (Inverse.u64 h.length_fits) (bind _ Inverse.flag (last _ (Inverse.str h.error))))

pub record StreamDigestFits (v : StreamDigest) : Type 0 where
  pub id : v.id < 2 ^ 64
  pub whole : length v.whole ≡ 16
  pub error : length v.error < 2 ^ 32

pub stream_digest_inverse :
    {v : StreamDigest} → StreamDigestFits v → Inverse (write_stream_digest v) read_stream_digest v
unfolding write_stream_digest read_stream_digest
stream_digest_inverse h =
    bind _ (Inverse.u64 h.id)
      (bind _ (Inverse.hash h.whole) (bind _ Inverse.flag (last _ (Inverse.str h.error))))
