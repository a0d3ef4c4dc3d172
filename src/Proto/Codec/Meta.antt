-- ===== src/Proto/Codec/Meta.antt =====
-- src/proto/codec.cc: the requests that change a file's metadata or its name, and their reply.
use rail.Proto.Message.{MetaRequest, MetaReply}
use rail.Proto.Writer
use rail.Proto.Writer.{Writer, ◌>>◌}
use rail.Proto.Reader
use rail.Proto.Reader.{Read, pure, ◌>>=◌}
use rail.Proto.Codec.Attrs.{write_attrs, read_attrs}

unfoldable pub write_meta : MetaRequest → Writer
write_meta v = do
  Writer.u64 v.id
  Writer.u16 v.op
  Writer.str v.path
  Writer.str v.target
  Writer.u64 v.size
  Writer.u32 v.mode
  Writer.i64 v.mtime
  Writer.u64 v.handle
  Writer.flag v.exclusive

unfoldable pub read_meta : Read MetaRequest
read_meta = do
  id ← Reader.u64
  op ← Reader.u16
  path ← Reader.str
  target ← Reader.str
  size ← Reader.u64
  mode ← Reader.u32
  mtime ← Reader.i64
  handle ← Reader.u64
  exclusive ← Reader.flag
  pure (record {
    id = id;
    op = op;
    path = path;
    target = target;
    size = size;
    mode = mode;
    mtime = mtime;
    handle = handle;
    exclusive = exclusive;
  })

unfoldable pub write_meta_reply : MetaReply → Writer
write_meta_reply v = do
  Writer.u64 v.id
  Writer.flag v.is_ok
  Writer.str v.error
  Writer.str v.target
  Writer.u32 v.errno
  write_attrs v.attrs

unfoldable pub read_meta_reply : Read MetaReply
read_meta_reply = do
  id ← Reader.u64
  is_ok ← Reader.flag
  error ← Reader.str
  target ← Reader.str
  errno ← Reader.u32
  attrs ← read_attrs
  pure (record {
    id = id;
    is_ok = is_ok;
    error = error;
    target = target;
    errno = errno;
    attrs = attrs;
  })
