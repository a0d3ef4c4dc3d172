-- ===== src/Proto/Codec/Bulk.antt =====
-- src/proto/codec.cc: the messages that announce and answer the movement of a file's bytes.
use rail.Proto.Message.{
  ReadRequest, WriteRequest, TransferReply, PeerEndpoint, FetchRequest, StoreRequest, StreamReply,
  StreamDigest,
}
use rail.Proto.Writer
use rail.Proto.Writer.{Writer, ◌>>◌}
use rail.Proto.Reader
use rail.Proto.Reader.{Read, pure, ◌>>=◌}

unfoldable pub write_read : ReadRequest → Writer
write_read v = do
  Writer.u64 v.id
  Writer.str v.path
  Writer.u64 v.offset
  Writer.u32 v.length
  Writer.u64 v.handle

unfoldable pub read_read : Read ReadRequest
read_read = do
  id ← Reader.u64
  path ← Reader.str
  offset ← Reader.u64
  length ← Reader.u32
  handle ← Reader.u64
  pure (record { id = id; path = path; offset = offset; length = length; handle = handle })

unfoldable pub write_write : WriteRequest → Writer
write_write v = do
  Writer.u64 v.id
  Writer.str v.path
  Writer.u64 v.offset
  Writer.u32 v.length
  Writer.flag v.truncate
  Writer.hash v.payload
  Writer.u64 v.handle

unfoldable pub read_write : Read WriteRequest
read_write = do
  id ← Reader.u64
  path ← Reader.str
  offset ← Reader.u64
  length ← Reader.u32
  truncate ← Reader.flag
  payload ← Reader.hash
  handle ← Reader.u64
  pure (record {
    id = id;
    path = path;
    offset = offset;
    length = length;
    truncate = truncate;
    payload = payload;
    handle = handle;
  })

unfoldable pub write_transfer_reply : TransferReply → Writer
write_transfer_reply v = do
  Writer.u64 v.id
  Writer.u32 v.length
  Writer.u64 v.file_size
  Writer.flag v.is_ok
  Writer.hash v.payload
  Writer.str v.error

unfoldable pub read_transfer_reply : Read TransferReply
read_transfer_reply = do
  id ← Reader.u64
  length ← Reader.u32
  file_size ← Reader.u64
  is_ok ← Reader.flag
  payload ← Reader.hash
  error ← Reader.str
  pure (record {
    id = id;
    length = length;
    file_size = file_size;
    is_ok = is_ok;
    payload = payload;
    error = error;
  })

unfoldable pub write_peer_endpoint : PeerEndpoint → Writer
write_peer_endpoint v = do Writer.str v.blob

unfoldable pub read_peer_endpoint : Read PeerEndpoint
read_peer_endpoint = do blob ← Reader.str; pure (record { blob = blob })

unfoldable pub write_fetch : FetchRequest → Writer
write_fetch v = do
  Writer.u64 v.id
  Writer.u64 v.tag_base
  Writer.str v.path
  Writer.u64 v.offset
  Writer.u64 v.length
  Writer.u64 v.handle

unfoldable pub read_fetch : Read FetchRequest
read_fetch = do
  id ← Reader.u64
  tag_base ← Reader.u64
  path ← Reader.str
  offset ← Reader.u64
  length ← Reader.u64
  handle ← Reader.u64
  pure (record {
    id = id;
    tag_base = tag_base;
    path = path;
    offset = offset;
    length = length;
    handle = handle;
  })

unfoldable pub write_store : StoreRequest → Writer
write_store v = do
  Writer.u64 v.id
  Writer.u64 v.tag_base
  Writer.str v.path
  Writer.u64 v.offset
  Writer.u64 v.length
  Writer.flag v.truncate
  Writer.u64 v.handle

unfoldable pub read_store : Read StoreRequest
read_store = do
  id ← Reader.u64
  tag_base ← Reader.u64
  path ← Reader.str
  offset ← Reader.u64
  length ← Reader.u64
  truncate ← Reader.flag
  handle ← Reader.u64
  pure (record {
    id = id;
    tag_base = tag_base;
    path = path;
    offset = offset;
    length = length;
    truncate = truncate;
    handle = handle;
  })

unfoldable pub write_stream_reply : StreamReply → Writer
write_stream_reply v = do
  Writer.u64 v.id
  Writer.u64 v.length
  Writer.flag v.is_ok
  Writer.str v.error

unfoldable pub read_stream_reply : Read StreamReply
read_stream_reply = do
  id ← Reader.u64
  length ← Reader.u64
  is_ok ← Reader.flag
  error ← Reader.str
  pure (record { id = id; length = length; is_ok = is_ok; error = error })

unfoldable pub write_stream_digest : StreamDigest → Writer
write_stream_digest v = do
  Writer.u64 v.id
  Writer.hash v.whole
  Writer.flag v.is_ok
  Writer.str v.error

unfoldable pub read_stream_digest : Read StreamDigest
read_stream_digest = do
  id ← Reader.u64
  whole ← Reader.hash
  is_ok ← Reader.flag
  error ← Reader.str
  pure (record { id = id; whole = whole; is_ok = is_ok; error = error })
