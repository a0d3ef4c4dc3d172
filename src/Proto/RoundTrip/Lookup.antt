-- ===== src/Proto/RoundTrip/Lookup.antt =====
-- The lookup messages: which values their fields can carry, and that decoding undoes encoding.
use rail.Prelude.{◌<◌, ◌^◌, length}
use rail.Proto.Message.{
  StatRequest, StatReply, ListRequest, StatFsRequest, StatFsReply, OpenRequest, OpenReply,
  CloseRequest,
}
use rail.Proto.Inverse
use rail.Proto.Inverse.{Inverse, bind, last}
use rail.Proto.Codec.Lookup.{
  write_stat, read_stat, write_stat_reply, read_stat_reply, write_list, read_list, write_stat_fs,
  read_stat_fs, write_stat_fs_reply, read_stat_fs_reply, write_open_file, read_open_file,
  write_open_reply, read_open_reply, write_close, read_close,
}
use rail.Proto.RoundTrip.Attrs.{FileAttrsFits, attrs_inverse}

pub record StatRequestFits (v : StatRequest) : Type 0 where
  pub id : v.id < 2 ^ 64
  pub path : length v.path < 2 ^ 32

pub stat_inverse : {v : StatRequest} → StatRequestFits v → Inverse (write_stat v) read_stat v
unfolding write_stat read_stat
stat_inverse h = bind _ (Inverse.u64 h.id) (last _ (Inverse.str h.path))

pub record StatReplyFits (v : StatReply) : Type 0 where
  pub id : v.id < 2 ^ 64
  pub attrs : FileAttrsFits v.attrs

pub stat_reply_inverse :
    {v : StatReply} → StatReplyFits v → Inverse (write_stat_reply v) read_stat_reply v
unfolding write_stat_reply read_stat_reply
stat_reply_inverse h =
    bind _ (Inverse.u64 h.id) (bind _ Inverse.flag (last _ (attrs_inverse h.attrs)))

pub record ListRequestFits (v : ListRequest) : Type 0 where
  pub id : v.id < 2 ^ 64
  pub path : length v.path < 2 ^ 32

pub list_inverse : {v : ListRequest} → ListRequestFits v → Inverse (write_list v) read_list v
unfolding write_list read_list
list_inverse h = bind _ (Inverse.u64 h.id) (last _ (Inverse.str h.path))

pub record StatFsRequestFits (v : StatFsRequest) : Type 0 where
  pub id : v.id < 2 ^ 64
  pub path : length v.path < 2 ^ 32

pub stat_fs_inverse :
    {v : StatFsRequest} → StatFsRequestFits v → Inverse (write_stat_fs v) read_stat_fs v
unfolding write_stat_fs read_stat_fs
stat_fs_inverse h = bind _ (Inverse.u64 h.id) (last _ (Inverse.str h.path))

pub record StatFsReplyFits (v : StatFsReply) : Type 0 where
  pub id : v.id < 2 ^ 64
  pub block_size : v.block_size < 2 ^ 64
  pub blocks : v.blocks < 2 ^ 64
  pub blocks_free : v.blocks_free < 2 ^ 64
  pub files : v.files < 2 ^ 64
  pub files_free : v.files_free < 2 ^ 64
  pub error : length v.error < 2 ^ 32

pub stat_fs_reply_inverse :
    {v : StatFsReply} → StatFsReplyFits v → Inverse (write_stat_fs_reply v) read_stat_fs_reply v
unfolding write_stat_fs_reply read_stat_fs_reply
stat_fs_reply_inverse h = bind _ (Inverse.u64 h.id) (
    bind _ Inverse.flag (
      bind _ (Inverse.u64 h.block_size) (
        bind _ (Inverse.u64 h.blocks) (
          bind _ (Inverse.u64 h.blocks_free) (
            bind _ (Inverse.u64 h.files)
              (bind _ (Inverse.u64 h.files_free) (last _ (Inverse.str h.error))))))))

pub record OpenRequestFits (v : OpenRequest) : Type 0 where
  pub id : v.id < 2 ^ 64
  pub path : length v.path < 2 ^ 32

pub open_file_inverse :
    {v : OpenRequest} → OpenRequestFits v → Inverse (write_open_file v) read_open_file v
unfolding write_open_file read_open_file
open_file_inverse h = bind _ (Inverse.u64 h.id) (bind _ (Inverse.str h.path) (last _ Inverse.flag))

pub record OpenReplyFits (v : OpenReply) : Type 0 where
  pub id : v.id < 2 ^ 64
  pub handle : v.handle < 2 ^ 64
  pub attrs : FileAttrsFits v.attrs
  pub error : length v.error < 2 ^ 32
  pub errno : v.errno < 2 ^ 32

pub open_reply_inverse :
    {v : OpenReply} → OpenReplyFits v → Inverse (write_open_reply v) read_open_reply v
unfolding write_open_reply read_open_reply
open_reply_inverse h = bind _ (Inverse.u64 h.id) (
    bind _ Inverse.flag (
      bind _ Inverse.flag (
        bind _ (Inverse.u64 h.handle) (
          bind _ (attrs_inverse h.attrs)
            (bind _ (Inverse.str h.error) (last _ (Inverse.u32 h.errno)))))))

pub record CloseRequestFits (v : CloseRequest) : Type 0 where
  pub id : v.id < 2 ^ 64
  pub handle : v.handle < 2 ^ 64

pub close_inverse : {v : CloseRequest} → CloseRequestFits v → Inverse (write_close v) read_close v
unfolding write_close read_close
close_inverse h = bind _ (Inverse.u64 h.id) (last _ (Inverse.u64 h.handle))
