-- ===== src/Proto/Codec/Lookup.antt =====
-- src/proto/codec.cc: stat, list, statfs, open and close, their requests and plain replies.
use rail.Proto.Message.{
  StatRequest, StatReply, ListRequest, StatFsRequest, StatFsReply, OpenRequest, OpenReply,
  CloseRequest,
}
use rail.Proto.Writer
use rail.Proto.Writer.{Writer, ◌>>◌}
use rail.Proto.Reader
use rail.Proto.Reader.{Read, pure, ◌>>=◌}
use rail.Proto.Codec.Attrs.{write_attrs, read_attrs}

unfoldable pub write_stat : StatRequest → Writer
write_stat v = do Writer.u64 v.id; Writer.str v.path

unfoldable pub read_stat : Read StatRequest
read_stat = do id ← Reader.u64; path ← Reader.str; pure (record { id = id; path = path })

unfoldable pub write_stat_reply : StatReply → Writer
write_stat_reply v = do Writer.u64 v.id; Writer.flag v.found; write_attrs v.attrs

unfoldable pub read_stat_reply : Read StatReply
read_stat_reply = do
  id ← Reader.u64
  found ← Reader.flag
  attrs ← read_attrs
  pure (record { id = id; found = found; attrs = attrs })

unfoldable pub write_list : ListRequest → Writer
write_list v = do Writer.u64 v.id; Writer.str v.path

unfoldable pub read_list : Read ListRequest
read_list = do id ← Reader.u64; path ← Reader.str; pure (record { id = id; path = path })

unfoldable pub write_stat_fs : StatFsRequest → Writer
write_stat_fs v = do Writer.u64 v.id; Writer.str v.path

unfoldable pub read_stat_fs : Read StatFsRequest
read_stat_fs = do id ← Reader.u64; path ← Reader.str; pure (record { id = id; path = path })

unfoldable pub write_stat_fs_reply : StatFsReply → Writer
write_stat_fs_reply v = do
  Writer.u64 v.id
  Writer.flag v.is_ok
  Writer.u64 v.block_size
  Writer.u64 v.blocks
  Writer.u64 v.blocks_free
  Writer.u64 v.files
  Writer.u64 v.files_free
  Writer.str v.error

unfoldable pub read_stat_fs_reply : Read StatFsReply
read_stat_fs_reply = do
  id ← Reader.u64
  is_ok ← Reader.flag
  block_size ← Reader.u64
  blocks ← Reader.u64
  blocks_free ← Reader.u64
  files ← Reader.u64
  files_free ← Reader.u64
  error ← Reader.str
  pure (record {
    id = id;
    is_ok = is_ok;
    block_size = block_size;
    blocks = blocks;
    blocks_free = blocks_free;
    files = files;
    files_free = files_free;
    error = error;
  })

unfoldable pub write_open_file : OpenRequest → Writer
write_open_file v = do Writer.u64 v.id; Writer.str v.path; Writer.flag v.writable

unfoldable pub read_open_file : Read OpenRequest
read_open_file = do
  id ← Reader.u64
  path ← Reader.str
  writable ← Reader.flag
  pure (record { id = id; path = path; writable = writable })

unfoldable pub write_open_reply : OpenReply → Writer
write_open_reply v = do
  Writer.u64 v.id
  Writer.flag v.is_ok
  Writer.flag v.found
  Writer.u64 v.handle
  write_attrs v.attrs
  Writer.str v.error
  Writer.u32 v.errno

unfoldable pub read_open_reply : Read OpenReply
read_open_reply = do
  id ← Reader.u64
  is_ok ← Reader.flag
  found ← Reader.flag
  handle ← Reader.u64
  attrs ← read_attrs
  error ← Reader.str
  errno ← Reader.u32
  pure (record {
    id = id;
    is_ok = is_ok;
    found = found;
    handle = handle;
    attrs = attrs;
    error = error;
    errno = errno;
  })

unfoldable pub write_close : CloseRequest → Writer
write_close v = do Writer.u64 v.id; Writer.u64 v.handle

unfoldable pub read_close : Read CloseRequest
read_close = do id ← Reader.u64; handle ← Reader.u64; pure (record { id = id; handle = handle })
