-- ===== src/Proto/RoundTrip/Transfer.antt =====
-- The transfer messages: which values their fields can carry, and that decoding undoes encoding.
use rail.Prelude.{◌≡◌, ◌<◌, ◌^◌, length}
use rail.Proto.Message.{Hello, HelloAck, FileHeader, Copy, Literal, Done, Receipt}
use rail.Proto.Inverse
use rail.Proto.Inverse.{Inverse, bind, last}
use rail.Proto.Codec.Transfer.{
  write_hello, read_hello, write_hello_ack, read_hello_ack, write_file_header, read_file_header,
  write_copy, read_copy, write_literal, read_literal, write_done, read_done, write_receipt,
  read_receipt,
}

pub record HelloFits (v : Hello) : Type 0 where
  pub version : v.version < 2 ^ 16
  pub backend : length v.backend < 2 ^ 32
  pub block_size : v.block_size < 2 ^ 32
  pub page_count : v.page_count < 2 ^ 64
  pub page_size : v.page_size < 2 ^ 64
  pub window_pages : v.window_pages < 2 ^ 64
  pub sum : v.sum < 2 ^ 8

pub hello_inverse : {v : Hello} → HelloFits v → Inverse (write_hello v) read_hello v
unfolding write_hello read_hello
hello_inverse h = bind _ (Inverse.u16 h.version) (
    bind _ (Inverse.str h.backend) (
      bind _ (Inverse.u32 h.block_size) (
        bind _ (Inverse.u64 h.page_count) (
          bind _ (Inverse.u64 h.page_size) (
            bind _ (Inverse.u64 h.window_pages)
              (bind _ Inverse.flag (bind _ Inverse.flag (last _ (Inverse.u8 h.sum)))))))))

pub record HelloAckFits (v : HelloAck) : Type 0 where
  pub backend : length v.backend < 2 ^ 32
  pub channel_endpoint : length v.channel_endpoint < 2 ^ 32

pub hello_ack_inverse :
    {v : HelloAck} → HelloAckFits v → Inverse (write_hello_ack v) read_hello_ack v
unfolding write_hello_ack read_hello_ack
hello_ack_inverse h = bind _ (Inverse.str h.backend) (last _ (Inverse.str h.channel_endpoint))

pub record FileHeaderFits (v : FileHeader) : Type 0 where
  pub name : length v.name < 2 ^ 32
  pub size : v.size < 2 ^ 64
  pub mode : v.mode < 2 ^ 32
  pub mtime : v.mtime < 2 ^ 64
  pub target : length v.target < 2 ^ 32

pub file_header_inverse :
    {v : FileHeader} → FileHeaderFits v → Inverse (write_file_header v) read_file_header v
unfolding write_file_header read_file_header
file_header_inverse h = bind _ (Inverse.str h.name) (
    bind _ (Inverse.u64 h.size) (
      bind _ (Inverse.u32 h.mode) (
        bind _ (Inverse.i64 h.mtime) (
          bind _ Inverse.flag (
            bind _ Inverse.flag
              (bind _ Inverse.flag (bind _ Inverse.flag (last _ (Inverse.str h.target)))))))))

pub record CopyFits (v : Copy) : Type 0 where
  pub block_index : v.block_index < 2 ^ 32
  pub count : v.count < 2 ^ 32
  pub dst_offset : v.dst_offset < 2 ^ 64

pub copy_inverse : {v : Copy} → CopyFits v → Inverse (write_copy v) read_copy v
unfolding write_copy read_copy
copy_inverse h =
    bind _ (Inverse.u32 h.block_index)
      (bind _ (Inverse.u32 h.count) (last _ (Inverse.u64 h.dst_offset)))

pub record LiteralFits (v : Literal) : Type 0 where
  pub offset : v.offset < 2 ^ 64
  pub length_fits : v.length < 2 ^ 32

pub literal_inverse : {v : Literal} → LiteralFits v → Inverse (write_literal v) read_literal v
unfolding write_literal read_literal
literal_inverse h = bind _ (Inverse.u64 h.offset) (last _ (Inverse.u32 h.length_fits))

pub record DoneFits (v : Done) : Type 0 where
  pub whole_file_hash : length v.whole_file_hash ≡ 16

pub done_inverse : {v : Done} → DoneFits v → Inverse (write_done v) read_done v
unfolding write_done read_done
done_inverse h = last _ (Inverse.hash h.whole_file_hash)

pub record ReceiptFits (v : Receipt) : Type 0 where
  pub literal_bytes : v.literal_bytes < 2 ^ 64
  pub matched_bytes : v.matched_bytes < 2 ^ 64
  pub hash_hits : v.hash_hits < 2 ^ 64
  pub false_alarms : v.false_alarms < 2 ^ 64

pub receipt_inverse : {v : Receipt} → ReceiptFits v → Inverse (write_receipt v) read_receipt v
unfolding write_receipt read_receipt
receipt_inverse h = bind _ (Inverse.u64 h.literal_bytes) (
    bind _ (Inverse.u64 h.matched_bytes)
      (bind _ (Inverse.u64 h.hash_hits) (last _ (Inverse.u64 h.false_alarms))))
