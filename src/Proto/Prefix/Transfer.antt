-- ===== src/Proto/Prefix/Transfer.antt =====
-- The readers of the transfer messages are stable under more input.
use rail.Proto.Stable
use rail.Proto.Stable.{Stable, Always}
use rail.Proto.Codec.Transfer.{
  read_hello, read_hello_ack, read_file_header, read_copy, read_literal, read_done, read_receipt,
}

pub hello_stable : Stable Always read_hello
unfolding read_hello
hello_stable = Stable.bind _ Stable.u16 λ version.
    (Stable.bind _ Stable.str λ backend.
      (Stable.bind _ Stable.u32 λ block_size.
        (Stable.bind _ Stable.u64 λ page_count.
          (Stable.bind _ Stable.u64 λ page_size.
            (Stable.bind _ Stable.u64 λ window_pages.
              (Stable.bind _ Stable.flag λ recursive.
                (Stable.bind _ Stable.flag
                  λ verify. (Stable.bind _ Stable.u8 λ sum. Stable.pure _))))))))

pub hello_ack_stable : Stable Always read_hello_ack
unfolding read_hello_ack
hello_ack_stable =
    Stable.bind _ Stable.str λ backend. (Stable.bind _ Stable.str λ channel_endpoint. Stable.pure _)

pub file_header_stable : Stable Always read_file_header
unfolding read_file_header
file_header_stable = Stable.bind _ Stable.str λ name.
    (Stable.bind _ Stable.u64 λ size.
      (Stable.bind _ Stable.u32 λ mode.
        (Stable.bind _ Stable.i64 λ mtime.
          (Stable.bind _ Stable.flag λ directory.
            (Stable.bind _ Stable.flag λ want_signature.
              (Stable.bind _ Stable.flag λ streamed.
                (Stable.bind _ Stable.flag
                  λ link. (Stable.bind _ Stable.str λ target. Stable.pure _))))))))

pub copy_stable : Stable Always read_copy
unfolding read_copy
copy_stable = Stable.bind _ Stable.u32 λ block_index.
    (Stable.bind _ Stable.u32 λ count. (Stable.bind _ Stable.u64 λ dst_offset. Stable.pure _))

pub literal_stable : Stable Always read_literal
unfolding read_literal
literal_stable =
    Stable.bind _ Stable.u64 λ offset. (Stable.bind _ Stable.u32 λ length. Stable.pure _)

pub done_stable : Stable Always read_done
unfolding read_done
done_stable = Stable.bind _ Stable.hash λ whole_file_hash. Stable.pure _

pub receipt_stable : Stable Always read_receipt
unfolding read_receipt
receipt_stable = Stable.bind _ Stable.u64 λ literal_bytes.
    (Stable.bind _ Stable.u64 λ matched_bytes.
      (Stable.bind _ Stable.u64
        λ hash_hits. (Stable.bind _ Stable.u64 λ false_alarms. Stable.pure _)))
