-- ===== src/Proto/Stable.antt =====
-- Readers that more input behind theirs does not disturb: what a read that met no error returned,
-- it returns again over a longer input, and the added bytes stay unread.
use rail.Prelude.{
  ℕ, ◌≤◌, ◌≡◌, refl, Bool, true, false, not, ◌||◌, ◌++◌, length, take-append_le, drop-append_le,
  length-append, arith, Bool-cases, inl, inr, if◌then◌else◌,
}
use rail.Proto.Bytes.{Bytes}
use rail.Proto.Reader
use rail.Proto.Reader.{Reader, Read, ◌>>=◌, is_ok, remaining}

abbrev pub extend : Reader → Bytes → Reader
extend r more = record r { unread = r.unread ++ more }

-- Of the runs whose result satisfies `P`.
pub record Stable {A : Type 0} (P : A → Type 0) (rd : Read A) : Type 0 where
  pub keeps :
      (r : Reader)
      → P (rd r).0
      → (rd r).1.ok ≡ true
      → (r.ok ≡ true) × ((more : Bytes) → rd (extend r more) ≡ ((rd r).0, extend (rd r).1 more))

abbrev pub Always : {A : Type 0} → A → Type 0
Always a = Unit

take_or : {A : Type 0} (d : A) (make : Bytes → A) (n : ℕ) → Stable Always (Reader.take_or d make n)
unfolding Reader.take_or
take_or d make n = record {
  keeps = λ r _ h. (
    ground arith,
    λ more. ground (
      arith,
      length-append r.unread more,
      take-append_le n r.unread more,
      drop-append_le n r.unread more,
    ),
  );
}

module _ {A : Type 0} {P : A → Type 0} where
  pub pure : (a : A) → Stable P (Reader.pure a)
  unfolding Reader.pure
  pure a = record { keeps = λ r _ h. (h, λ more. refl) }

  pub bind :
      {B : Type 0} {m : Read B} (f : B → Read A)
      → Stable Always m
      → ((b : B) → Stable P (f b))
      → Stable P (m >>= f)
  unfolding ◌>>=◌
  bind {m = m} f p q = record {
    keeps = λ r holds h.
        let after = (q (m r).0).keeps (m r).1 holds h in
        let before = p.keeps r tt after.0 in (before.0, λ more. rw (before.1 more) (after.1 more));
  }

  -- A result that is wrapped at the end.
  pub mapped :
      {B : Type 0} {Q : B → Type 0} {m : Read B} (g : B → A)
      → ((b : B) → P (g b) → Q b)
      → Stable Q m
      → Stable P (m >>= λ b. Reader.pure (g b))
  unfolding ◌>>=◌ Reader.pure
  mapped {m = m} g back p = record {
    keeps = λ r holds h.
        let before = p.keeps r (back (m r).0 holds) h in (before.0, λ more. rw (before.1 more));
  }

  -- A length check ahead of a loop: more input cannot make it fail.
  pub guarded :
      (refused : A) (test : ℕ → Bool) (rd : Read A)
      → ¬ (P refused)
      → ((a b : ℕ) → a ≤ b → test a ≡ false → test b ≡ false)
      → Stable P rd
      → Stable P (
          is_ok >>= λ fine.
          remaining >>= λ left. if not fine || test left then Reader.pure refused else rd)
  unfolding ◌>>=◌ is_ok remaining Reader.pure
  guarded refused test rd never mono p = record {
    keeps = λ r. elim (Bool-cases (not r.ok || test (length r.unread))) [
      | inl bad ↦ rw bad (λ holds h. absurd (never holds))
      | inr good ↦ rw good (λ holds h.
          ((p.keeps r holds h).0, λ more. rw (still r more good) ((p.keeps r holds h).1 more)))
    ];
  }
    where
      still :
          (r : Reader) (more : Bytes)
          → (not r.ok || test (length r.unread)) ≡ false
          → (not r.ok || test (length (r.unread ++ more))) ≡ false
      still r more good =
          let longer : length r.unread ≤ length (r.unread ++ more) =
            omega (arith, length-append r.unread more) in
          ground (arith, mono (length r.unread) (length (r.unread ++ more)))

pub u8 : Stable Always Reader.u8
unfolding Reader.u8 Reader.read
u8 = take_or _ _ _

pub u16 : Stable Always Reader.u16
unfolding Reader.u16 Reader.read
u16 = take_or _ _ _

pub u32 : Stable Always Reader.u32
unfolding Reader.u32 Reader.read
u32 = take_or _ _ _

pub u64 : Stable Always Reader.u64
unfolding Reader.u64 Reader.read
u64 = take_or _ _ _

pub i64 : Stable Always Reader.i64
unfolding Reader.i64 Reader.read
i64 = take_or _ _ _

pub hash : Stable Always Reader.hash
unfolding Reader.hash
hash = take_or _ _ _

pub str : Stable Always Reader.str
unfolding Reader.str
str = bind _ u32 λ n. take_or _ _ n

pub flag : Stable Always Reader.flag
unfolding Reader.flag
flag = bind _ u8 λ v. pure _

pub peek_ok : Stable Always is_ok
unfolding is_ok
peek_ok = record { keeps = λ r _ h. (h, λ more. refl) }
