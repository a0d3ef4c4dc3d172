-- ===== src/Proto/Message.antt =====
-- `Message` of include/rail/proto/message.h, a variant over the message structs, with typeOf and
-- idOf.
mod Transfer
mod Service
pub use Transfer.{BlockSum, Hello, HelloAck, FileHeader, Copy, Literal, Done, Receipt, Signature}
pub use Service.{
  FileAttrs, ListEntry, StatRequest, StatReply, ListRequest, ListReply, ReadRequest, WriteRequest,
  TransferReply, PeerEndpoint, FetchRequest, StoreRequest, StreamReply, StreamDigest, MetaRequest,
  MetaReply, StatFsRequest, StatFsReply, OpenRequest, OpenReply, CloseRequest,
}
use rail.Prelude.{ℕ}
use rail.Proto.Kind.{MessageType}

pub data Message : Type 0 where
  hello : Hello → Message
  hello_ack : HelloAck → Message
  file_header : FileHeader → Message
  signature : Signature → Message
  copy : Copy → Message
  literal : Literal → Message
  done : Done → Message
  receipt : Receipt → Message
  end : Message
  stat : StatRequest → Message
  stat_reply : StatReply → Message
  list : ListRequest → Message
  list_reply : ListReply → Message
  read : ReadRequest → Message
  write : WriteRequest → Message
  transfer_reply : TransferReply → Message
  peer_endpoint : PeerEndpoint → Message
  fetch : FetchRequest → Message
  store : StoreRequest → Message
  stream_reply : StreamReply → Message
  stream_digest : StreamDigest → Message
  meta : MetaRequest → Message
  meta_reply : MetaReply → Message
  stat_fs : StatFsRequest → Message
  stat_fs_reply : StatFsReply → Message
  open_file : OpenRequest → Message
  open_reply : OpenReply → Message
  close : CloseRequest → Message

unfoldable pub type_of : Message → MessageType
type_of (hello v) = MessageType.hello
type_of (hello_ack v) = MessageType.hello_ack
type_of (file_header v) = MessageType.file_header
type_of (signature v) = MessageType.signature
type_of (copy v) = MessageType.copy
type_of (literal v) = MessageType.literal
type_of (done v) = MessageType.done
type_of (receipt v) = MessageType.receipt
type_of end = MessageType.end
type_of (stat v) = MessageType.stat
type_of (stat_reply v) = MessageType.stat_reply
type_of (list v) = MessageType.list
type_of (list_reply v) = MessageType.list_reply
type_of (read v) = MessageType.read
type_of (write v) = MessageType.write
type_of (transfer_reply v) = MessageType.transfer_reply
type_of (peer_endpoint v) = MessageType.peer_endpoint
type_of (fetch v) = MessageType.fetch
type_of (store v) = MessageType.store
type_of (stream_reply v) = MessageType.stream_reply
type_of (stream_digest v) = MessageType.stream_digest
type_of (meta v) = MessageType.meta
type_of (meta_reply v) = MessageType.meta_reply
type_of (stat_fs v) = MessageType.stat_fs
type_of (stat_fs_reply v) = MessageType.stat_fs_reply
type_of (open_file v) = MessageType.open_file
type_of (open_reply v) = MessageType.open_reply
type_of (close v) = MessageType.close

-- The request that a message belongs to, and 0 for a message with no Id.
unfoldable pub id_of : Message → ℕ
id_of (hello v) = 0
id_of (hello_ack v) = 0
id_of (file_header v) = 0
id_of (signature v) = 0
id_of (copy v) = 0
id_of (literal v) = 0
id_of (done v) = 0
id_of (receipt v) = 0
id_of end = 0
id_of (stat v) = v.id
id_of (stat_reply v) = v.id
id_of (list v) = v.id
id_of (list_reply v) = v.id
id_of (read v) = v.id
id_of (write v) = v.id
id_of (transfer_reply v) = v.id
id_of (peer_endpoint v) = 0
id_of (fetch v) = v.id
id_of (store v) = v.id
id_of (stream_reply v) = v.id
id_of (stream_digest v) = v.id
id_of (meta v) = v.id
id_of (meta_reply v) = v.id
id_of (stat_fs v) = v.id
id_of (stat_fs_reply v) = v.id
id_of (open_file v) = v.id
id_of (open_reply v) = v.id
id_of (close v) = v.id
