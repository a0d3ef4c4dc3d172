-- ===== src/Proto/Writer.antt =====
-- `class Writer` of include/rail/proto/codec.h. A writer is a run of its methods: from what the
-- vector `Out` holds to what it holds afterwards.
use rail.Prelude.{ℕ, ◌%◌, ◌^◌, ◌++◌, length, Bool, if◌then◌else◌}
use rail.Proto.Bytes.{Bytes, le_bytes}

abbrev pub Writer : Type 0
Writer = Bytes → Bytes

-- One call, then the rest.
infixl 5 ◌>>◌
unfoldable pub ◌>>◌ : Writer → Writer → Writer
◌>>◌ w rest out = rest (w out)

-- Out.insert(Out.end(), B, B + N)
unfoldable pub raw : Bytes → Writer
raw bytes out = out ++ bytes

unfoldable pub u8 : ℕ → Writer
u8 v = raw (le_bytes 1 v)

unfoldable pub u16 : ℕ → Writer
u16 v = raw (le_bytes 2 v)

unfoldable pub u32 : ℕ → Writer
u32 v = raw (le_bytes 4 v)

unfoldable pub u64 : ℕ → Writer
u64 v = raw (le_bytes 8 v)

unfoldable pub i64 : ℕ → Writer
i64 v = raw (le_bytes 8 v)

-- The size is cast to uint32_t, the contents are written whole.
unfoldable pub str : Bytes → Writer
str s = do u32 (length s % 2 ^ 32); raw s

unfoldable pub hash : Bytes → Writer
hash h = raw h

-- W.u8(B ? 1 : 0)
unfoldable pub flag : Bool → Writer
flag b = u8 (if b then 1 else 0)

-- No call at all.
unfoldable pub skip : Writer
skip out = out
