-- ===== src/Proto/Prefix/Whole.antt =====
-- Decoding a payload that was cut short.
use rail.Prelude.{
  ℕ, ◌≡◌, refl, sym, ap, ◌∙◌, ◌++◌, [], ◌∷◌, true, length, length-append, append-nil, Bool-cases,
  inl, inr, arith,
}
use Prim.Native.String
use rail.Result.{Error, Result, ok, err, protocol_error}
use rail.Proto.Kind.{MessageType, type_name, to_wire, of_wire-to_wire}
use rail.Proto.Bytes.{Bytes}
use rail.Proto.Inverse.{Inverse, at}
use rail.Proto.Reader.{Reader, Read}
use rail.Proto.Stable
use rail.Proto.Stable.{Stable, Always}
use rail.Proto.Codec.Whole.{encode, read_message, wrap, finish, decode_as, decode}
use rail.Proto.RoundTrip.Whole.{Fits, message_inverse}
use rail.Proto.Prefix.Repeated.{Accepted, signature_stable, list_reply_stable}
use rail.Proto.Message.{Message, type_of, signature, list_reply}
use rail.Proto.Prefix.Transfer.{
  hello_stable, hello_ack_stable, file_header_stable, copy_stable, literal_stable, done_stable,
  receipt_stable,
}
use rail.Proto.Prefix.Lookup.{
  stat_stable, stat_reply_stable, list_stable, stat_fs_stable, stat_fs_reply_stable,
  open_file_stable, open_reply_stable, close_stable,
}
use rail.Proto.Prefix.Bulk.{
  read_stable, write_stable, transfer_reply_stable, peer_endpoint_stable, fetch_stable,
  store_stable, stream_reply_stable, stream_digest_stable,
}
use rail.Proto.Prefix.Meta.{meta_stable, meta_reply_stable}

wrap-Accepted :
    {A : Type 0} (make : A → Message) (r : Result A) → Accepted (wrap make r) → Accepted r
unfolding wrap
wrap-Accepted make (ok a) h = tt
wrap-Accepted make (err e) h = h

pub message_stable : (t : MessageType) → Stable Accepted (read_message t)
unfolding read_message wrap
message_stable MessageType.hello = Stable.bind _ hello_stable λ v. Stable.pure _
message_stable MessageType.hello_ack = Stable.bind _ hello_ack_stable λ v. Stable.pure _
message_stable MessageType.file_header = Stable.bind _ file_header_stable λ v. Stable.pure _
message_stable MessageType.signature = Stable.mapped _ (wrap-Accepted signature) signature_stable
message_stable MessageType.copy = Stable.bind _ copy_stable λ v. Stable.pure _
message_stable MessageType.literal = Stable.bind _ literal_stable λ v. Stable.pure _
message_stable MessageType.done = Stable.bind _ done_stable λ v. Stable.pure _
message_stable MessageType.receipt = Stable.bind _ receipt_stable λ v. Stable.pure _
message_stable MessageType.end = Stable.pure _
message_stable MessageType.stat = Stable.bind _ stat_stable λ v. Stable.pure _
message_stable MessageType.stat_reply = Stable.bind _ stat_reply_stable λ v. Stable.pure _
message_stable MessageType.list = Stable.bind _ list_stable λ v. Stable.pure _
message_stable MessageType.list_reply = Stable.mapped _ (wrap-Accepted list_reply) list_reply_stable
message_stable MessageType.read = Stable.bind _ read_stable λ v. Stable.pure _
message_stable MessageType.write = Stable.bind _ write_stable λ v. Stable.pure _
message_stable MessageType.transfer_reply = Stable.bind _ transfer_reply_stable λ v. Stable.pure _
message_stable MessageType.peer_endpoint = Stable.bind _ peer_endpoint_stable λ v. Stable.pure _
message_stable MessageType.fetch = Stable.bind _ fetch_stable λ v. Stable.pure _
message_stable MessageType.store = Stable.bind _ store_stable λ v. Stable.pure _
message_stable MessageType.stream_reply = Stable.bind _ stream_reply_stable λ v. Stable.pure _
message_stable MessageType.stream_digest = Stable.bind _ stream_digest_stable λ v. Stable.pure _
message_stable MessageType.meta = Stable.bind _ meta_stable λ v. Stable.pure _
message_stable MessageType.meta_reply = Stable.bind _ meta_reply_stable λ v. Stable.pure _
message_stable MessageType.stat_fs = Stable.bind _ stat_fs_stable λ v. Stable.pure _
message_stable MessageType.stat_fs_reply = Stable.bind _ stat_fs_reply_stable λ v. Stable.pure _
message_stable MessageType.open_file = Stable.bind _ open_file_stable λ v. Stable.pure _
message_stable MessageType.open_reply = Stable.bind _ open_reply_stable λ v. Stable.pure _
message_stable MessageType.close = Stable.bind _ close_stable λ v. Stable.pure _

abbrev cut_short : MessageType → Error
cut_short t = record { code = protocol_error; context = String.◌++◌ "truncated " (type_name t) }

-- A decoder that neither refused nor stayed within the bytes gives an error.
refused :
    (t : MessageType) (out : Result Message × Reader)
    → (Accepted out.0 → out.1.ok ≡ true → ⊥)
    → (e : Error) × (finish t out ≡ err e)
unfolding finish
refused t (err e, r) never = (e, refl)
refused t (ok m, r) never = elim (Bool-cases r.ok) [
  | inl fine ↦ absurd (never tt fine)
  | inr bad ↦ (cut_short t, rw bad)
]

-- The payload of a message whose values fit their fields is refused where it is cut short anywhere:
-- no proper front part of its encoding decodes.
pub decode_truncated :
    (m : Message) (front back : Bytes) (x : ℕ)
    → Fits m
    → encode m [] ≡ front ++ (x ∷ back)
    → (e : Error) × (decode (to_wire (type_of m)) front ≡ err e)
unfolding decode decode_as
decode_truncated m front back x h cut = rw (of_wire-to_wire (type_of m)) (
    refused (type_of m) (rd (at front)) λ holds fine. absurd (
      omega (
        arith,
        ap (λ out. length out.1.unread)
            (sym (whole) ∙ ((message_stable (type_of m)).keeps (at front) holds fine).1 (x ∷ back)),
        length-append (rd (at front)).1.unread (x ∷ back),
      )))
  where
    rd : Read (Result Message)
    rd = read_message (type_of m)

    p : Inverse (encode m) rd (ok m)
    p = message_inverse m h

    whole : rd (at (front ++ (x ∷ back))) ≡ (ok m, at [])
    whole = rw (← cut, p.writes []) (rw (append-nil p.bytes) at (p.reads []))
