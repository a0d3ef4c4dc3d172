-- ===== src/Proto/Reader.antt =====
-- `class Reader` of include/rail/proto/codec.h. `unread` is In from Pos on, so `remaining()` is its
-- length, and a read that does not fit clears `ok` and moves nothing.
use rail.Prelude.{
  ℕ, [], Bool, false, not, ◌||◌, length, take, drop, replicate, ltb, ◌==◌, if◌then◌else◌,
}
use rail.Proto.Bytes.{Bytes, of_le_bytes}

pub record Reader : Type 0 where
  pub unread : Bytes
  pub ok : Bool

-- A run of the class's methods: what it computes, and the reader afterwards.
abbrev pub Read {ℓ} : Type ℓ → Type ℓ
Read A = Reader → A × Reader

module _ {ℓ} {A : Type ℓ} where
  unfoldable pub pure : A → Read A
  pure a r = (a, r)

infixl 5 ◌>>=◌
unfoldable pub ◌>>=◌ {ℓ κ} : {A : Type ℓ} {B : Type κ} → Read A → (A → Read B) → Read B
◌>>=◌ m f r = let (a, r') = m r in f a r'

-- The guard that the three readers share, `!Ok || Pos + N > In.size()`: the value of a refused
-- read, and what the bytes are made of otherwise.
unfoldable pub take_or {ℓ} : {A : Type ℓ} → A → (Bytes → A) → ℕ → Read A
take_or default make n r =
    if not r.ok || ltb (length r.unread) n
    then (default, record r { ok = false })
    else (make (take n r.unread), record r { unread = drop n r.unread })

-- template <typename T> T read(), for a T of n bytes
unfoldable pub read : ℕ → Read ℕ
read n = take_or 0 of_le_bytes n

unfoldable pub u8 : Read ℕ
u8 = read 1

unfoldable pub u16 : Read ℕ
u16 = read 2

unfoldable pub u32 : Read ℕ
u32 = read 4

unfoldable pub u64 : Read ℕ
u64 = read 8

unfoldable pub i64 : Read ℕ
i64 = read 8

unfoldable pub str : Read Bytes
str = do n ← u32; take_or [] (λ bytes. bytes) n

unfoldable pub hash : Read Bytes
hash = take_or (replicate 16 0) (λ bytes. bytes) 16

-- R.u8() != 0
unfoldable pub flag : Read Bool
flag = do v ← u8; pure (not (v == 0))

-- remaining(), and ok()
unfoldable pub remaining : Read ℕ
remaining r = (length r.unread, r)

unfoldable pub is_ok : Read Bool
is_ok r = (r.ok, r)
