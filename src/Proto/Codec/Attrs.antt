-- ===== src/Proto/Codec/Attrs.antt =====
-- writeAttrs and readAttrs of src/proto/codec.cc, and the elements of the two repeated fields.
use rail.Proto.Message.{FileAttrs}
use rail.Proto.Writer
use rail.Proto.Writer.{Writer, ◌>>◌}
use rail.Proto.Reader
use rail.Proto.Reader.{Read, pure, ◌>>=◌}

unfoldable pub write_attrs : FileAttrs → Writer
write_attrs v = do
  Writer.u64 v.size
  Writer.u64 v.dev
  Writer.u64 v.ino
  Writer.u32 v.mode
  Writer.u32 v.uid
  Writer.u32 v.gid
  Writer.i64 v.mtime
  Writer.flag v.directory
  Writer.flag v.link
  Writer.u32 v.links

unfoldable pub read_attrs : Read FileAttrs
read_attrs = do
  size ← Reader.u64
  dev ← Reader.u64
  ino ← Reader.u64
  mode ← Reader.u32
  uid ← Reader.u32
  gid ← Reader.u32
  mtime ← Reader.i64
  directory ← Reader.flag
  link ← Reader.flag
  links ← Reader.u32
  pure (record {
    size = size;
    dev = dev;
    ino = ino;
    mode = mode;
    uid = uid;
    gid = gid;
    mtime = mtime;
    directory = directory;
    link = link;
    links = links;
  })
