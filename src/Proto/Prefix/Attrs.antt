-- ===== src/Proto/Prefix/Attrs.antt =====
-- The readers of the attrs messages are stable under more input.
use rail.Proto.Stable
use rail.Proto.Stable.{Stable, Always}
use rail.Proto.Codec.Attrs.{read_attrs}

pub attrs_stable : Stable Always read_attrs
unfolding read_attrs
attrs_stable = Stable.bind _ Stable.u64 λ size.
    (Stable.bind _ Stable.u64 λ dev.
      (Stable.bind _ Stable.u64 λ ino.
        (Stable.bind _ Stable.u32 λ mode.
          (Stable.bind _ Stable.u32 λ uid.
            (Stable.bind _ Stable.u32 λ gid.
              (Stable.bind _ Stable.i64 λ mtime.
                (Stable.bind _ Stable.flag λ directory.
                  (Stable.bind _ Stable.flag
                    λ link. (Stable.bind _ Stable.u32 λ links. Stable.pure _)))))))))
