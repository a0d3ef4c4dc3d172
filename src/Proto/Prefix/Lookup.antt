-- ===== src/Proto/Prefix/Lookup.antt =====
-- The readers of the lookup messages are stable under more input.
use rail.Proto.Stable
use rail.Proto.Stable.{Stable, Always}
use rail.Proto.Codec.Lookup.{
  read_stat, read_stat_reply, read_list, read_stat_fs, read_stat_fs_reply, read_open_file,
  read_open_reply, read_close,
}
use rail.Proto.Prefix.Attrs.{attrs_stable}

pub stat_stable : Stable Always read_stat
unfolding read_stat
stat_stable = Stable.bind _ Stable.u64 λ id. (Stable.bind _ Stable.str λ path. Stable.pure _)

pub stat_reply_stable : Stable Always read_stat_reply
unfolding read_stat_reply
stat_reply_stable =
    Stable.bind _ Stable.u64
      λ id. (Stable.bind _ Stable.flag λ found. (Stable.bind _ attrs_stable λ attrs. Stable.pure _))

pub list_stable : Stable Always read_list
unfolding read_list
list_stable = Stable.bind _ Stable.u64 λ id. (Stable.bind _ Stable.str λ path. Stable.pure _)

pub stat_fs_stable : Stable Always read_stat_fs
unfolding read_stat_fs
stat_fs_stable = Stable.bind _ Stable.u64 λ id. (Stable.bind _ Stable.str λ path. Stable.pure _)

pub stat_fs_reply_stable : Stable Always read_stat_fs_reply
unfolding read_stat_fs_reply
stat_fs_reply_stable = Stable.bind _ Stable.u64 λ id.
    (Stable.bind _ Stable.flag λ is_ok.
      (Stable.bind _ Stable.u64 λ block_size.
        (Stable.bind _ Stable.u64 λ blocks.
          (Stable.bind _ Stable.u64 λ blocks_free.
            (Stable.bind _ Stable.u64 λ files.
              (Stable.bind _ Stable.u64
                λ files_free. (Stable.bind _ Stable.str λ error. Stable.pure _)))))))

pub open_file_stable : Stable Always read_open_file
unfolding read_open_file
open_file_stable =
    Stable.bind _ Stable.u64
      λ id. (Stable.bind _ Stable.str λ path. (Stable.bind _ Stable.flag λ writable. Stable.pure _))

pub open_reply_stable : Stable Always read_open_reply
unfolding read_open_reply
open_reply_stable = Stable.bind _ Stable.u64 λ id.
    (Stable.bind _ Stable.flag λ is_ok.
      (Stable.bind _ Stable.flag λ found.
        (Stable.bind _ Stable.u64 λ handle.
          (Stable.bind _ attrs_stable λ attrs.
            (Stable.bind _ Stable.str
              λ error. (Stable.bind _ Stable.u32 λ errno. Stable.pure _))))))

pub close_stable : Stable Always read_close
unfolding read_close
close_stable = Stable.bind _ Stable.u64 λ id. (Stable.bind _ Stable.u64 λ handle. Stable.pure _)
