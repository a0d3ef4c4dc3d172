-- ===== src/Proto/Message/Transfer.antt =====
-- The messages of a transfer (include/rail/proto/message.h): the session's opening, a file's
-- header, its signature and the delta instructions. A string is its bytes, a digest 16 bytes, and
-- an int64_t the 64-bit pattern that stands for it.
use rail.Prelude.{ℕ, Bool, List}
use rail.Proto.Bytes.{Bytes}

pub record BlockSum : Type 0 where
  pub weak : ℕ
  pub strong : Bytes

pub record Hello : Type 0 where
  pub version : ℕ
  pub backend : Bytes
  pub block_size : ℕ
  pub page_count : ℕ
  pub page_size : ℕ
  pub window_pages : ℕ
  pub recursive : Bool
  pub verify : Bool
  pub sum : ℕ

pub record HelloAck : Type 0 where
  pub backend : Bytes
  pub channel_endpoint : Bytes

pub record FileHeader : Type 0 where
  pub name : Bytes
  pub size : ℕ
  pub mode : ℕ
  pub mtime : ℕ
  pub directory : Bool
  pub link : Bool
  pub target : Bytes
  pub want_signature : Bool
  pub streamed : Bool

pub record Copy : Type 0 where
  pub block_index : ℕ
  pub count : ℕ
  pub dst_offset : ℕ

pub record Literal : Type 0 where
  pub offset : ℕ
  pub length : ℕ

pub record Done : Type 0 where
  pub whole_file_hash : Bytes

pub record Receipt : Type 0 where
  pub literal_bytes : ℕ
  pub matched_bytes : ℕ
  pub hash_hits : ℕ
  pub false_alarms : ℕ

pub record Signature : Type 0 where
  pub block_length : ℕ
  pub strong_length : ℕ
  pub file_length : ℕ
  pub sums : List BlockSum
