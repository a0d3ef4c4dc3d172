-- ===== src/Proto/Prefix/Bulk.antt =====
-- The readers of the bulk messages are stable under more input.
use rail.Proto.Stable
use rail.Proto.Stable.{Stable, Always}
use rail.Proto.Codec.Bulk.{
  read_read, read_write, read_transfer_reply, read_peer_endpoint, read_fetch, read_store,
  read_stream_reply, read_stream_digest,
}

pub read_stable : Stable Always read_read
unfolding read_read
read_stable = Stable.bind _ Stable.u64 λ id.
    (Stable.bind _ Stable.str λ path.
      (Stable.bind _ Stable.u64 λ offset.
        (Stable.bind _ Stable.u32 λ length. (Stable.bind _ Stable.u64 λ handle. Stable.pure _))))

pub write_stable : Stable Always read_write
unfolding read_write
write_stable = Stable.bind _ Stable.u64 λ id.
    (Stable.bind _ Stable.str λ path.
      (Stable.bind _ Stable.u64 λ offset.
        (Stable.bind _ Stable.u32 λ length.
          (Stable.bind _ Stable.flag λ truncate.
            (Stable.bind _ Stable.hash
              λ payload. (Stable.bind _ Stable.u64 λ handle. Stable.pure _))))))

pub transfer_reply_stable : Stable Always read_transfer_reply
unfolding read_transfer_reply
transfer_reply_stable = Stable.bind _ Stable.u64 λ id.
    (Stable.bind _ Stable.u32 λ length.
      (Stable.bind _ Stable.u64 λ file_size.
        (Stable.bind _ Stable.flag λ is_ok.
          (Stable.bind _ Stable.hash
            λ payload. (Stable.bind _ Stable.str λ error. Stable.pure _)))))

pub peer_endpoint_stable : Stable Always read_peer_endpoint
unfolding read_peer_endpoint
peer_endpoint_stable = Stable.bind _ Stable.str λ blob. Stable.pure _

pub fetch_stable : Stable Always read_fetch
unfolding read_fetch
fetch_stable = Stable.bind _ Stable.u64 λ id.
    (Stable.bind _ Stable.u64 λ tag_base.
      (Stable.bind _ Stable.str λ path.
        (Stable.bind _ Stable.u64 λ offset.
          (Stable.bind _ Stable.u64 λ length. (Stable.bind _ Stable.u64 λ handle. Stable.pure _)))))

pub store_stable : Stable Always read_store
unfolding read_store
store_stable = Stable.bind _ Stable.u64 λ id.
    (Stable.bind _ Stable.u64 λ tag_base.
      (Stable.bind _ Stable.str λ path.
        (Stable.bind _ Stable.u64 λ offset.
          (Stable.bind _ Stable.u64 λ length.
            (Stable.bind _ Stable.flag
              λ truncate. (Stable.bind _ Stable.u64 λ handle. Stable.pure _))))))

pub stream_reply_stable : Stable Always read_stream_reply
unfolding read_stream_reply
stream_reply_stable = Stable.bind _ Stable.u64 λ id.
    (Stable.bind _ Stable.u64 λ length.
      (Stable.bind _ Stable.flag λ is_ok. (Stable.bind _ Stable.str λ error. Stable.pure _)))

pub stream_digest_stable : Stable Always read_stream_digest
unfolding read_stream_digest
stream_digest_stable = Stable.bind _ Stable.u64 λ id.
    (Stable.bind _ Stable.hash λ whole.
      (Stable.bind _ Stable.flag λ is_ok. (Stable.bind _ Stable.str λ error. Stable.pure _)))
