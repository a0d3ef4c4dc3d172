-- ===== src/Proto/RoundTrip/Repeated.antt =====
-- The messages with a repeated field: which values they can carry, and that decoding undoes
-- encoding.
use rail.Prelude.{
  ℕ, ◌+◌, ◌*◌, ◌%◌, ◌^◌, ◌≤◌, ◌<◌, ◌≡◌, refl, sym, ◌∙◌, append-nil, Bool, false, not, ◌||◌, List,
  [], ◌∷◌, ◌++◌, length, All, length-append, arith, if◌then◌else◌,
}
use rail.Result.{ok}
use rail.Proto.Bytes.{Bytes, le_bytes, length-le_bytes}
use rail.Proto.Message.{FileAttrs, BlockSum, Signature, ListEntry, ListReply}
use rail.Proto.Writer
use rail.Proto.Writer.{Writer, skip, ◌>>◌}
use rail.Proto.Reader
use rail.Proto.Reader.{Read, ◌>>=◌, pure, is_ok, remaining}
use rail.Proto.Inverse
use rail.Proto.Inverse.{Inverse, bind, last, at}
use rail.Proto.Codec.Attrs.{write_attrs, read_attrs}
use rail.Proto.Codec.Repeated.{
  write_sum, write_sums, write_signature, read_sum, read_sums, read_signature, list_entry_floor,
  write_entry, write_entries, write_list_reply, read_entry, read_entries, read_list_reply,
}
use rail.Proto.RoundTrip.Attrs.{FileAttrsFits, attrs_inverse}

pub record BlockSumFits (s : BlockSum) : Type 0 where
  pub weak : s.weak < 2 ^ 32
  pub strong : length s.strong ≡ 16

pub record SignatureFits (v : Signature) : Type 0 where
  pub block_length : v.block_length < 2 ^ 32
  pub strong_length : v.strong_length < 2 ^ 32
  pub file_length : v.file_length < 2 ^ 64
  pub count : length v.sums < 2 ^ 32
  pub sums : All BlockSumFits v.sums

pub record ListEntryFits (e : ListEntry) : Type 0 where
  pub name : length e.name < 2 ^ 32
  pub attrs : FileAttrsFits e.attrs

pub record ListReplyFits (v : ListReply) : Type 0 where
  pub id : v.id < 2 ^ 64
  pub count : length v.entries < 2 ^ 32
  pub entries : All ListEntryFits v.entries
  pub self : FileAttrsFits v.self
  pub parent : FileAttrsFits v.parent

-- A reader that has met no error goes on.
going :
    {A : Type 0} {w : Writer} {rd : Read A} {a : A} (stop : Read A)
    → Inverse w rd a
    → Inverse w (is_ok >>= λ fine. if fine then rd else stop) a
unfolding ◌>>=◌ is_ok
going stop p = record { bytes = p.bytes; writes = p.writes; reads = p.reads }

-- A length check that the bytes written always pass.
guarded :
    {A : Type 0} {w : Writer} {rd : Read A} {a : A} (refused : Read A) (test : ℕ → Bool)
    → (p : Inverse w rd a) → ((n : ℕ) → length p.bytes ≤ n → test n ≡ false)
    → Inverse w
        (is_ok >>= λ fine. remaining >>= λ left. if not fine || test left then refused else rd)
        a
unfolding ◌>>=◌ is_ok remaining
guarded refused test p passes = record {
  bytes = p.bytes;
  writes = p.writes;
  reads = λ rest.
      rw (passes (length (p.bytes ++ rest)) (omega (arith, length-append p.bytes rest)))
        (p.reads rest);
}

-- What a writer that some reader inverts appends to nothing.
length-bytes :
    {A : Type 0} {w : Writer} {rd : Read A} {a : A} (p : Inverse w rd a)
    → length p.bytes ≡ length (w [])
length-bytes p = rw (p.writes []) refl

length-write_attrs : (a : FileAttrs) (out : Bytes) → length (write_attrs a out) ≡ length out + 50
unfolding write_attrs ◌>>◌ Writer.raw Writer.u8 Writer.u32 Writer.u64 Writer.i64 Writer.flag
length-write_attrs a out = simp (length-append, length-le_bytes) (omega arith)

length-write_sums :
    (sums : List BlockSum) (out : Bytes)
    → All BlockSumFits sums
    → length (write_sums sums out) ≡ length out + 20 * length sums
unfolding write_sums write_sum ◌>>◌ skip Writer.raw Writer.u32 Writer.hash
length-write_sums [] out h = omega arith
length-write_sums (s ∷ sums) out (h, hs) = omega (
  arith,
  length-write_sums sums _ hs,
  length-append (out ++ le_bytes 4 s.weak) s.strong,
  length-append out (le_bytes 4 s.weak),
  length-le_bytes 4 s.weak,
  h.strong,
)

length-write_entries :
    (entries : List ListEntry) (out : Bytes)
    → length out + list_entry_floor * length entries ≤ length (write_entries entries out)
unfolding write_entries write_entry ◌>>◌ skip Writer.raw Writer.u32 Writer.str
length-write_entries [] out = omega arith
length-write_entries (e ∷ entries) out =
    let name = le_bytes 4 (length e.name % 2 ^ 32) in
    omega (
      arith,
      length-write_entries entries (write_attrs e.attrs ((out ++ name) ++ e.name)),
      length-write_attrs e.attrs ((out ++ name) ++ e.name),
      length-append (out ++ name) e.name,
      length-append out name,
      length-le_bytes 4 (length e.name % 2 ^ 32),
    )

sum_inverse : {s : BlockSum} → BlockSumFits s → Inverse (write_sum s) read_sum s
unfolding write_sum read_sum
sum_inverse h = bind _ (Inverse.u32 h.weak) (last _ (Inverse.hash h.strong))

entry_inverse : {e : ListEntry} → ListEntryFits e → Inverse (write_entry e) read_entry e
unfolding write_entry read_entry
entry_inverse h = bind _ (Inverse.str h.name) (last _ (attrs_inverse h.attrs))

pub nothing : {A : Type 0} (a : A) → Inverse skip (pure a) a
unfolding skip pure
nothing a = record { bytes = []; writes = λ out. sym (append-nil out); reads = λ rest. refl }

sums_inverse :
    (sums : List BlockSum)
    → All BlockSumFits sums
    → Inverse (write_sums sums) (read_sums (length sums)) sums
unfolding write_sums read_sums
sums_inverse [] h = nothing []
sums_inverse (s ∷ sums) (h, hs) = going _ (bind _ (sum_inverse h) (last _ (sums_inverse sums hs)))

entries_inverse :
    (entries : List ListEntry)
    → All ListEntryFits entries
    → Inverse (write_entries entries) (read_entries (length entries)) entries
unfolding write_entries read_entries
entries_inverse [] h = nothing []
entries_inverse (e ∷ entries) (h, hs) =
    going _ (bind _ (entry_inverse h) (last _ (entries_inverse entries hs)))

-- The count is written as it is.
count_inverse : {n : ℕ} → n < 2 ^ 32 → Inverse (Writer.u32 (n % 2 ^ 32)) Reader.u32 n
count_inverse {n} h = let same : n % 2 ^ 32 ≡ n = omega arith in rw same (Inverse.u32 h)

pub signature_inverse :
    {v : Signature} → SignatureFits v → Inverse (write_signature v) read_signature (ok v)
unfolding write_signature read_signature
signature_inverse {v} h = bind _ (Inverse.u32 h.block_length) (
    bind _ (Inverse.u32 h.strong_length) (
      bind _ (Inverse.u64 h.file_length)
        (bind _ (count_inverse h.count) (guarded _ _ rest (λ n le. ground (arith, size, le))))))
  where
    rest :
        Inverse
          (write_sums v.sums)
          (read_sums (length v.sums) >>= (λ sums. pure (ok (record v { sums = sums }))))
          (ok v)
    rest = last _ (sums_inverse v.sums h.sums)

    size : length rest.bytes ≡ 20 * length v.sums
    size = length-bytes rest ∙ length-write_sums v.sums [] h.sums ∙ omega arith

pub list_reply_inverse :
    {v : ListReply} → ListReplyFits v → Inverse (write_list_reply v) read_list_reply (ok v)
unfolding write_list_reply read_list_reply
list_reply_inverse {v} h = bind _ (Inverse.u64 h.id) (
    bind _ Inverse.flag
      (bind _ (count_inverse h.count) (guarded _ _ rest (λ n le. ground (arith, size, le)))))
  where
    rest :
        Inverse
          (write_entries v.entries >> (write_attrs v.self >> write_attrs v.parent))
          (read_entries (length v.entries) >>= λ entries. read_attrs >>= λ self.
            read_attrs >>= λ parent.
            pure (ok (record v { entries = entries; self = self; parent = parent })))
          (ok v)
    rest =
        bind _ (entries_inverse v.entries h.entries)
          (bind _ (attrs_inverse h.self) (last _ (attrs_inverse h.parent)))

    size : list_entry_floor * length v.entries ≤ length rest.bytes
    size = rw (length-bytes rest) (
        unfold ◌>>◌ in
        omega (
          arith,
          length-write_entries v.entries [],
          length-write_attrs v.self (write_entries v.entries []),
          length-write_attrs v.parent (write_attrs v.self (write_entries v.entries [])),
        ))
