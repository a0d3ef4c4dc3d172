-- ===== src/Proto/Typed.antt =====
-- Which message a decoded payload can be: the one that its frame's type names.
use rail.Prelude.{ℕ, ◌≡◌, sym, ap, Option, none, some, arith}
use rail.Result.{Result, ok, err}
use rail.Proto.Bytes.{Bytes}
use rail.Proto.Kind.{MessageType, hello, of_wire, to_wire, to_wire-of_wire}
use rail.Proto.Reader.{Reader, pure, ◌>>=◌}
use rail.Proto.Message.{Message, type_of}
use rail.Proto.Codec.Whole.{read_message, wrap, finish, decode_as, decode}

read_message-type :
    (t : MessageType) (r : Reader) (m : Message) → (read_message t r).0 ≡ ok m → type_of m ≡ t
unfolding read_message wrap pure ◌>>=◌ type_of
read_message-type hello r m h = ground arith
read_message-type _ r m h = ground arith

finish-type :
    (t : MessageType) (out : Result Message × Reader) (m : Message)
    → ((m : Message) → out.0 ≡ ok m → type_of m ≡ t)
    → finish t out ≡ ok m
    → type_of m ≡ t
unfolding finish
finish-type t (err e, r) m types h = cc
finish-type t (ok n, r) m types h = types m (ground arith)

decode_as-type :
    (t : Option MessageType) (payload : Bytes) (m : Message)
    → decode_as t payload ≡ ok m
    → t ≡ some (type_of m)
unfolding decode_as
decode_as-type none payload m h = cc
decode_as-type (some t) payload m h =
    ap some (sym (finish-type t (read_message t _) m (read_message-type t _) h))

-- A payload decodes only to a message of the type that was asked for.
pub type_of-decode :
    (wire : ℕ) (payload : Bytes) (m : Message)
    → decode wire payload ≡ ok m
    → to_wire (type_of m) ≡ wire
unfolding decode
type_of-decode wire payload m h =
    to_wire-of_wire wire (type_of m) (decode_as-type (of_wire wire) payload m h)
