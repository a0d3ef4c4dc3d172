-- ===== src/Proto/Message/Service.antt =====
-- The messages of the file service (include/rail/proto/message.h): requests, each with an id, and
-- the replies that carry it back.
use rail.Prelude.{ℕ, Bool, List}
use rail.Proto.Bytes.{Bytes}

pub record FileAttrs : Type 0 where
  pub size : ℕ
  pub dev : ℕ
  pub ino : ℕ
  pub mode : ℕ
  pub uid : ℕ
  pub gid : ℕ
  pub mtime : ℕ
  pub directory : Bool
  pub link : Bool
  pub links : ℕ

pub record StatRequest : Type 0 where
  pub id : ℕ
  pub path : Bytes

pub record StatReply : Type 0 where
  pub id : ℕ
  pub found : Bool
  pub attrs : FileAttrs

pub record ListRequest : Type 0 where
  pub id : ℕ
  pub path : Bytes

pub record StatFsRequest : Type 0 where
  pub id : ℕ
  pub path : Bytes

pub record StatFsReply : Type 0 where
  pub id : ℕ
  pub is_ok : Bool
  pub block_size : ℕ
  pub blocks : ℕ
  pub blocks_free : ℕ
  pub files : ℕ
  pub files_free : ℕ
  pub error : Bytes

pub record OpenRequest : Type 0 where
  pub id : ℕ
  pub path : Bytes
  pub writable : Bool

pub record OpenReply : Type 0 where
  pub id : ℕ
  pub is_ok : Bool
  pub found : Bool
  pub handle : ℕ
  pub attrs : FileAttrs
  pub error : Bytes
  pub errno : ℕ

pub record CloseRequest : Type 0 where
  pub id : ℕ
  pub handle : ℕ

pub record ReadRequest : Type 0 where
  pub id : ℕ
  pub path : Bytes
  pub offset : ℕ
  pub length : ℕ
  pub handle : ℕ

pub record WriteRequest : Type 0 where
  pub id : ℕ
  pub path : Bytes
  pub offset : ℕ
  pub length : ℕ
  pub truncate : Bool
  pub payload : Bytes
  pub handle : ℕ

pub record TransferReply : Type 0 where
  pub id : ℕ
  pub length : ℕ
  pub file_size : ℕ
  pub is_ok : Bool
  pub payload : Bytes
  pub error : Bytes

pub record PeerEndpoint : Type 0 where
  pub blob : Bytes

pub record FetchRequest : Type 0 where
  pub id : ℕ
  pub tag_base : ℕ
  pub path : Bytes
  pub offset : ℕ
  pub length : ℕ
  pub handle : ℕ

pub record StoreRequest : Type 0 where
  pub id : ℕ
  pub tag_base : ℕ
  pub path : Bytes
  pub offset : ℕ
  pub length : ℕ
  pub truncate : Bool
  pub handle : ℕ

pub record StreamReply : Type 0 where
  pub id : ℕ
  pub length : ℕ
  pub is_ok : Bool
  pub error : Bytes

pub record StreamDigest : Type 0 where
  pub id : ℕ
  pub whole : Bytes
  pub is_ok : Bool
  pub error : Bytes

pub record MetaRequest : Type 0 where
  pub id : ℕ
  pub op : ℕ
  pub path : Bytes
  pub target : Bytes
  pub size : ℕ
  pub mode : ℕ
  pub mtime : ℕ
  pub handle : ℕ
  pub exclusive : Bool

pub record MetaReply : Type 0 where
  pub id : ℕ
  pub is_ok : Bool
  pub error : Bytes
  pub target : Bytes
  pub errno : ℕ
  pub attrs : FileAttrs

pub record ListEntry : Type 0 where
  pub name : Bytes
  pub attrs : FileAttrs

pub record ListReply : Type 0 where
  pub id : ℕ
  pub found : Bool
  pub entries : List ListEntry
  pub self : FileAttrs
  pub parent : FileAttrs
