-- ===== src/Proto/RoundTrip/Meta.antt =====
-- The meta messages: which values their fields can carry, and that decoding undoes encoding.
use rail.Prelude.{◌<◌, ◌^◌, length}
use rail.Proto.Message.{MetaRequest, MetaReply}
use rail.Proto.Inverse
use rail.Proto.Inverse.{Inverse, bind, last}
use rail.Proto.Codec.Meta.{write_meta, read_meta, write_meta_reply, read_meta_reply}
use rail.Proto.RoundTrip.Attrs.{FileAttrsFits, attrs_inverse}

pub record MetaRequestFits (v : MetaRequest) : Type 0 where
  pub id : v.id < 2 ^ 64
  pub op : v.op < 2 ^ 16
  pub path : length v.path < 2 ^ 32
  pub target : length v.target < 2 ^ 32
  pub size : v.size < 2 ^ 64
  pub mode : v.mode < 2 ^ 32
  pub mtime : v.mtime < 2 ^ 64
  pub handle : v.handle < 2 ^ 64

pub meta_inverse : {v : MetaRequest} → MetaRequestFits v → Inverse (write_meta v) read_meta v
unfolding write_meta read_meta
meta_inverse h = bind _ (Inverse.u64 h.id) (
    bind _ (Inverse.u16 h.op) (
      bind _ (Inverse.str h.path) (
        bind _ (Inverse.str h.target) (
          bind _ (Inverse.u64 h.size) (
            bind _ (Inverse.u32 h.mode) (
              bind _ (Inverse.i64 h.mtime)
                (bind _ (Inverse.u64 h.handle) (last _ Inverse.flag))))))))

pub record MetaReplyFits (v : MetaReply) : Type 0 where
  pub id : v.id < 2 ^ 64
  pub error : length v.error < 2 ^ 32
  pub target : length v.target < 2 ^ 32
  pub errno : v.errno < 2 ^ 32
  pub attrs : FileAttrsFits v.attrs

pub meta_reply_inverse :
    {v : MetaReply} → MetaReplyFits v → Inverse (write_meta_reply v) read_meta_reply v
unfolding write_meta_reply read_meta_reply
meta_reply_inverse h = bind _ (Inverse.u64 h.id) (
    bind _ Inverse.flag (
      bind _ (Inverse.str h.error) (
        bind _ (Inverse.str h.target)
          (bind _ (Inverse.u32 h.errno) (last _ (attrs_inverse h.attrs))))))
