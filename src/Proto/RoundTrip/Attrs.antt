-- ===== src/Proto/RoundTrip/Attrs.antt =====
-- A file's attributes: which values its fields can carry, and that decoding undoes encoding.
use rail.Prelude.{◌<◌, ◌^◌}
use rail.Proto.Message.{FileAttrs}
use rail.Proto.Inverse
use rail.Proto.Inverse.{Inverse, bind, last}
use rail.Proto.Codec.Attrs.{write_attrs, read_attrs}

pub record FileAttrsFits (v : FileAttrs) : Type 0 where
  pub size : v.size < 2 ^ 64
  pub dev : v.dev < 2 ^ 64
  pub ino : v.ino < 2 ^ 64
  pub mode : v.mode < 2 ^ 32
  pub uid : v.uid < 2 ^ 32
  pub gid : v.gid < 2 ^ 32
  pub mtime : v.mtime < 2 ^ 64
  pub links : v.links < 2 ^ 32

pub attrs_inverse : {v : FileAttrs} → FileAttrsFits v → Inverse (write_attrs v) read_attrs v
unfolding write_attrs read_attrs
attrs_inverse h = bind _ (Inverse.u64 h.size) (
    bind _ (Inverse.u64 h.dev) (
      bind _ (Inverse.u64 h.ino) (
        bind _ (Inverse.u32 h.mode) (
          bind _ (Inverse.u32 h.uid) (
            bind _ (Inverse.u32 h.gid) (
              bind _ (Inverse.i64 h.mtime)
                (bind _ Inverse.flag (bind _ Inverse.flag (last _ (Inverse.u32 h.links))))))))))
