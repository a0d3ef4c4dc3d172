-- ===== src/Proto/Kind.antt =====
-- `enum class Type` of include/rail/proto/message.h, and its names (src/proto/codec.cc).
use Prim.Native.String.{String}
use rail.Prelude.{ℕ, ◌≡◌, refl, Option, none, some, arith, ◌==◌, if◌then◌else◌}

pub data MessageType : Type 0 where
  hello hello_ack file_header signature copy literal done receipt end stat stat_reply list
        list_reply read :
      MessageType
  write transfer_reply peer_endpoint fetch store stream_reply stream_digest meta meta_reply stat_fs
        stat_fs_reply open_file open_reply close :
      MessageType

-- The enumerators' values. 7 and 10 name no message.
unfoldable pub to_wire : MessageType → ℕ
to_wire hello = 1
to_wire hello_ack = 2
to_wire file_header = 3
to_wire signature = 4
to_wire copy = 5
to_wire literal = 6
to_wire done = 8
to_wire receipt = 9
to_wire end = 11
to_wire stat = 12
to_wire stat_reply = 13
to_wire list = 14
to_wire list_reply = 15
to_wire read = 16
to_wire write = 17
to_wire transfer_reply = 18
to_wire peer_endpoint = 19
to_wire fetch = 20
to_wire store = 21
to_wire stream_reply = 22
to_wire stream_digest = 23
to_wire meta = 24
to_wire meta_reply = 25
to_wire stat_fs = 26
to_wire stat_fs_reply = 27
to_wire open_file = 28
to_wire open_reply = 29
to_wire close = 30

-- static_cast<Type>(T) and the cases of the switch in `decode`: any other value is `none`.
unfoldable pub of_wire : ℕ → Option MessageType
of_wire n =
    if n == 1
    then some hello
    else if n == 2
    then some hello_ack
    else if n == 3
    then some file_header
    else if n == 4
    then some signature
    else if n == 5
    then some copy
    else if n == 6
    then some literal
    else if n == 8
    then some done
    else if n == 9
    then some receipt
    else if n == 11
    then some end
    else if n == 12
    then some stat
    else if n == 13
    then some stat_reply
    else if n == 14
    then some list
    else if n == 15
    then some list_reply
    else if n == 16
    then some read
    else if n == 17
    then some write
    else if n == 18
    then some transfer_reply
    else if n == 19
    then some peer_endpoint
    else if n == 20
    then some fetch
    else if n == 21
    then some store
    else if n == 22
    then some stream_reply
    else if n == 23
    then some stream_digest
    else if n == 24
    then some meta
    else if n == 25
    then some meta_reply
    else if n == 26
    then some stat_fs
    else if n == 27
    then some stat_fs_reply
    else if n == 28
    then some open_file
    else if n == 29
    then some open_reply
    else if n == 30
    then some close
    else none

unfoldable pub type_name : MessageType → String
type_name hello = "Hello"
type_name hello_ack = "HelloAck"
type_name file_header = "FileHeader"
type_name signature = "Signature"
type_name copy = "Copy"
type_name literal = "Literal"
type_name done = "Done"
type_name receipt = "Receipt"
type_name end = "End"
type_name stat = "Stat"
type_name stat_reply = "StatReply"
type_name list = "List"
type_name list_reply = "ListReply"
type_name read = "Read"
type_name write = "Write"
type_name transfer_reply = "TransferReply"
type_name peer_endpoint = "PeerEndpoint"
type_name fetch = "Fetch"
type_name store = "Store"
type_name stream_reply = "StreamReply"
type_name stream_digest = "StreamDigest"
type_name meta = "Meta"
type_name meta_reply = "MetaReply"
type_name stat_fs = "StatFs"
type_name stat_fs_reply = "StatFsReply"
type_name open_file = "Open"
type_name open_reply = "OpenReply"
type_name close = "Close"

pub of_wire-to_wire : (t : MessageType) → of_wire (to_wire t) ≡ some t
unfolding of_wire to_wire
of_wire-to_wire hello = refl
of_wire-to_wire _ = refl

pub to_wire-of_wire : (n : ℕ) (t : MessageType) → of_wire n ≡ some t → to_wire t ≡ n
unfolding of_wire to_wire
to_wire-of_wire n t h = ground arith
