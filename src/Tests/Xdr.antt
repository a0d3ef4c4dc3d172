-- ===== src/Tests/Xdr.antt =====
-- XDR: runs and instances.
use rail.Prelude.{◌≡◌, refl, true, false, [], ◌∷◌, ◌++◌, arith}
use rail.Proto.Bytes.{Bytes}
use rail.Nfs.Xdr.{
  XdrWriter, put_opaque, put_opaque_tail, put_fixed, put_u32, put_u64, be_bytes, padding, payload,
  get_opaque, get_u64,
}
use rail.Nfs.Xdr.RoundTrip.{
  wire, get_opaque-put_opaque, put_opaque_tail-put_opaque, get_u64-put_u64, get_opaque-over,
}

abbrev empty_writer : XdrWriter
empty_writer = record { out = []; tail = []; tail_pad = 0 }

abbrev handle : Bytes
handle = 9 ∷ 8 ∷ 7 ∷ 6 ∷ 5 ∷ []

handle-written :
    (put_opaque empty_writer handle).out ≡ 0 ∷ 0 ∷ 0 ∷ 5 ∷ 9 ∷ 8 ∷ 7 ∷ 6 ∷ 5 ∷ 0 ∷ 0 ∷ 0 ∷ []
unfolding put_opaque put_fixed put_u32 be_bytes padding
handle-written = refl

get_opaque-put_opaque_example :
    get_opaque (record { unread = (put_opaque empty_writer handle).out ++ (1 ∷ []); ok = true }) 64
    ≡ (handle, record { unread = 1 ∷ []; ok = true })
get_opaque-put_opaque_example =
    get_opaque-put_opaque empty_writer handle (1 ∷ []) 64 refl (omega arith) (omega arith)

put_opaque_tail-put_opaque_example :
    wire (payload (put_opaque_tail empty_writer handle))
    ≡ wire (payload (put_opaque empty_writer handle))
put_opaque_tail-put_opaque_example = put_opaque_tail-put_opaque empty_writer handle refl refl

get_u64-put_u64_example :
    get_u64 (record { unread = (put_u64 empty_writer 5000000000).out ++ (1 ∷ []); ok = true })
    ≡ (5000000000, record { unread = 1 ∷ []; ok = true })
get_u64-put_u64_example = get_u64-put_u64 empty_writer 5000000000 (1 ∷ []) refl (omega arith)

get_opaque-over_example :
    let read =
      get_opaque (record { unread = (put_opaque empty_writer handle).out ++ []; ok = true }) 4 in
    (read.0 ≡ []) × (read.1.ok ≡ false)
get_opaque-over_example = get_opaque-over empty_writer handle [] 4 refl (omega arith) (omega arith)
