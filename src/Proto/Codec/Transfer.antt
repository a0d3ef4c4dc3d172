-- ===== src/Proto/Codec/Transfer.antt =====
-- The encode branch and the decode case of each message of a transfer (src/proto/codec.cc).
use rail.Proto.Message.{Hello, HelloAck, FileHeader, Copy, Literal, Done, Receipt}
use rail.Proto.Writer
use rail.Proto.Writer.{Writer, ◌>>◌}
use rail.Proto.Reader
use rail.Proto.Reader.{Read, pure, ◌>>=◌}

unfoldable pub write_hello : Hello → Writer
write_hello v = do
  Writer.u16 v.version
  Writer.str v.backend
  Writer.u32 v.block_size
  Writer.u64 v.page_count
  Writer.u64 v.page_size
  Writer.u64 v.window_pages
  Writer.flag v.recursive
  Writer.flag v.verify
  Writer.u8 v.sum

unfoldable pub read_hello : Read Hello
read_hello = do
  version ← Reader.u16
  backend ← Reader.str
  block_size ← Reader.u32
  page_count ← Reader.u64
  page_size ← Reader.u64
  window_pages ← Reader.u64
  recursive ← Reader.flag
  verify ← Reader.flag
  sum ← Reader.u8
  pure (record {
    version = version;
    backend = backend;
    block_size = block_size;
    page_count = page_count;
    page_size = page_size;
    window_pages = window_pages;
    recursive = recursive;
    verify = verify;
    sum = sum;
  })

unfoldable pub write_hello_ack : HelloAck → Writer
write_hello_ack v = do Writer.str v.backend; Writer.str v.channel_endpoint

unfoldable pub read_hello_ack : Read HelloAck
read_hello_ack = do
  backend ← Reader.str
  channel_endpoint ← Reader.str
  pure (record { backend = backend; channel_endpoint = channel_endpoint })

unfoldable pub write_file_header : FileHeader → Writer
write_file_header v = do
  Writer.str v.name
  Writer.u64 v.size
  Writer.u32 v.mode
  Writer.i64 v.mtime
  Writer.flag v.directory
  Writer.flag v.want_signature
  Writer.flag v.streamed
  Writer.flag v.link
  Writer.str v.target

unfoldable pub read_file_header : Read FileHeader
read_file_header = do
  name ← Reader.str
  size ← Reader.u64
  mode ← Reader.u32
  mtime ← Reader.i64
  directory ← Reader.flag
  want_signature ← Reader.flag
  streamed ← Reader.flag
  link ← Reader.flag
  target ← Reader.str
  pure (record {
    name = name;
    size = size;
    mode = mode;
    mtime = mtime;
    directory = directory;
    want_signature = want_signature;
    streamed = streamed;
    link = link;
    target = target;
  })

unfoldable pub write_copy : Copy → Writer
write_copy v = do Writer.u32 v.block_index; Writer.u32 v.count; Writer.u64 v.dst_offset

unfoldable pub read_copy : Read Copy
read_copy = do
  block_index ← Reader.u32
  count ← Reader.u32
  dst_offset ← Reader.u64
  pure (record { block_index = block_index; count = count; dst_offset = dst_offset })

unfoldable pub write_literal : Literal → Writer
write_literal v = do Writer.u64 v.offset; Writer.u32 v.length

unfoldable pub read_literal : Read Literal
read_literal = do
  offset ← Reader.u64
  length ← Reader.u32
  pure (record { offset = offset; length = length })

unfoldable pub write_done : Done → Writer
write_done v = do Writer.hash v.whole_file_hash

unfoldable pub read_done : Read Done
read_done = do whole_file_hash ← Reader.hash; pure (record { whole_file_hash = whole_file_hash })

unfoldable pub write_receipt : Receipt → Writer
write_receipt v = do
  Writer.u64 v.literal_bytes
  Writer.u64 v.matched_bytes
  Writer.u64 v.hash_hits
  Writer.u64 v.false_alarms

unfoldable pub read_receipt : Read Receipt
read_receipt = do
  literal_bytes ← Reader.u64
  matched_bytes ← Reader.u64
  hash_hits ← Reader.u64
  false_alarms ← Reader.u64
  pure (record {
    literal_bytes = literal_bytes;
    matched_bytes = matched_bytes;
    hash_hits = hash_hits;
    false_alarms = false_alarms;
  })
