-- ===== src/Proto/Prefix/Meta.antt =====
-- The readers of the meta messages are stable under more input.
use rail.Proto.Stable
use rail.Proto.Stable.{Stable, Always}
use rail.Proto.Codec.Meta.{read_meta, read_meta_reply}
use rail.Proto.Prefix.Attrs.{attrs_stable}

pub meta_stable : Stable Always read_meta
unfolding read_meta
meta_stable = Stable.bind _ Stable.u64 λ id.
    (Stable.bind _ Stable.u16 λ op.
      (Stable.bind _ Stable.str λ path.
        (Stable.bind _ Stable.str λ target.
          (Stable.bind _ Stable.u64 λ size.
            (Stable.bind _ Stable.u32 λ mode.
              (Stable.bind _ Stable.i64 λ mtime.
                (Stable.bind _ Stable.u64
                  λ handle. (Stable.bind _ Stable.flag λ exclusive. Stable.pure _))))))))

pub meta_reply_stable : Stable Always read_meta_reply
unfolding read_meta_reply
meta_reply_stable = Stable.bind _ Stable.u64 λ id.
    (Stable.bind _ Stable.flag λ is_ok.
      (Stable.bind _ Stable.str λ error.
        (Stable.bind _ Stable.str λ target.
          (Stable.bind _ Stable.u32 λ errno. (Stable.bind _ attrs_stable λ attrs. Stable.pure _)))))
