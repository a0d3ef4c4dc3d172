-- ===== src/Proto/Codec/Repeated.antt =====
-- The two messages with a repeated field (src/proto/codec.cc): the block sums of a signature and
-- the entries of a directory. Decoding checks the count against the bytes that are there before it
-- loops, and the loop also stops at the first read that fails.
use rail.Prelude.{
  ℕ, zero, suc, ◌+◌, ◌*◌, ◌%◌, ◌^◌, not, ◌||◌, List, [], ◌∷◌, length, ltb, if◌then◌else◌,
}
use rail.Result.{Result, ok, fail_message}
use rail.Proto.Message.{BlockSum, Signature, ListEntry, ListReply}
use rail.Proto.Writer
use rail.Proto.Writer.{Writer, ◌>>◌, skip}
use rail.Proto.Reader
use rail.Proto.Reader.{Read, pure, ◌>>=◌, is_ok, remaining}
use rail.Proto.Codec.Attrs.{write_attrs, read_attrs}

unfoldable pub write_sum : BlockSum → Writer
write_sum s = do Writer.u32 s.weak; Writer.hash s.strong

unfoldable pub write_sums : List BlockSum → Writer
write_sums [] = skip
write_sums (s ∷ sums) = do write_sum s; write_sums sums

unfoldable pub write_signature : Signature → Writer
write_signature v = do
  Writer.u32 v.block_length
  Writer.u32 v.strong_length
  Writer.u64 v.file_length
  Writer.u32 (length v.sums % 2 ^ 32)
  write_sums v.sums

unfoldable pub read_sum : Read BlockSum
read_sum = do
  weak ← Reader.u32
  strong ← Reader.hash
  pure (record { weak = weak; strong = strong })

-- for (uint32_t I = 0; I < N && R.ok(); I++), over the rounds that are left.
unfoldable pub read_sums : ℕ → Read (List BlockSum)
read_sums zero = pure []
read_sums (suc n) = do
  going ← is_ok
  if going then (do s ← read_sum; sums ← read_sums n; pure (s ∷ sums)) else pure []

unfoldable pub read_signature : Read (Result Signature)
read_signature = do
  block_length ← Reader.u32
  strong_length ← Reader.u32
  file_length ← Reader.u64
  count ← Reader.u32
  fine ← is_ok
  left ← remaining
  if not fine || ltb (left + 20) (count * 20)
      then pure (fail_message "signature length out of range")
      else do
        sums ← read_sums count
        pure (
            ok (record {
              block_length = block_length;
              strong_length = strong_length;
              file_length = file_length;
              sums = sums;
            }))

-- kListEntryFloor: a name's length and the attributes.
abbrev pub list_entry_floor : ℕ
list_entry_floor = 4 + 50

unfoldable pub write_entry : ListEntry → Writer
write_entry e = do Writer.str e.name; write_attrs e.attrs

unfoldable pub write_entries : List ListEntry → Writer
write_entries [] = skip
write_entries (e ∷ entries) = do write_entry e; write_entries entries

unfoldable pub write_list_reply : ListReply → Writer
write_list_reply v = do
  Writer.u64 v.id
  Writer.flag v.found
  Writer.u32 (length v.entries % 2 ^ 32)
  write_entries v.entries
  write_attrs v.self
  write_attrs v.parent

unfoldable pub read_entry : Read ListEntry
read_entry = do name ← Reader.str; attrs ← read_attrs; pure (record { name = name; attrs = attrs })

unfoldable pub read_entries : ℕ → Read (List ListEntry)
read_entries zero = pure []
read_entries (suc n) = do
  going ← is_ok
  if going then (do e ← read_entry; entries ← read_entries n; pure (e ∷ entries)) else pure []

unfoldable pub read_list_reply : Read (Result ListReply)
read_list_reply = do
  id ← Reader.u64
  found ← Reader.flag
  count ← Reader.u32
  fine ← is_ok
  left ← remaining
  if not fine || ltb left (count * list_entry_floor)
      then pure (fail_message "list reply length out of range")
      else do
        entries ← read_entries count
        self ← read_attrs
        parent ← read_attrs
        pure (
            ok (record { id = id; found = found; entries = entries; self = self; parent = parent }))
