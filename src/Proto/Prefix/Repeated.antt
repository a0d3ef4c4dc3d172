-- ===== src/Proto/Prefix/Repeated.antt =====
-- The readers of the two messages with a repeated field are stable under more input, once their
-- length check has passed.
use rail.Prelude.{ℕ, zero, suc, ◌+◌, ◌*◌, ◌≤◌, ◌≡◌, Bool, true, false, ltb, arith, if◌then◌else◌}
use rail.Result.{Result, ok, err}
use rail.Proto.Reader.{Read}
use rail.Proto.Stable
use rail.Proto.Stable.{Stable, Always}
use rail.Proto.Codec.Repeated.{
  read_sum, read_sums, read_signature, read_entry, read_entries, read_list_reply, list_entry_floor,
}
use rail.Proto.Prefix.Attrs.{attrs_stable}

-- A decoder that has not refused the message.
abbrev pub Accepted {ℓ} : {A : Type ℓ} → Result A → Type 0
Accepted (ok a) = Unit
Accepted (err e) = ⊥

choice :
    {A : Type 0} (fine : Bool) (rd stop : Read A)
    → Stable Always rd
    → Stable Always stop
    → Stable Always (if fine then rd else stop)
choice true rd stop p q = p
choice false rd stop p q = q

sum_stable : Stable Always read_sum
unfolding read_sum
sum_stable = Stable.bind _ Stable.u32 λ weak. Stable.bind _ Stable.hash λ strong. Stable.pure _

sums_stable : (n : ℕ) → Stable Always (read_sums n)
unfolding read_sums
sums_stable zero = Stable.pure _
sums_stable (suc n) = Stable.bind _ Stable.peek_ok λ fine.
    choice fine _ _
      (Stable.bind _ sum_stable λ s. Stable.bind _ (sums_stable n) λ sums. Stable.pure _)
      (Stable.pure _)

entry_stable : Stable Always read_entry
unfolding read_entry
entry_stable = Stable.bind _ Stable.str λ name. Stable.bind _ attrs_stable λ attrs. Stable.pure _

entries_stable : (n : ℕ) → Stable Always (read_entries n)
unfolding read_entries
entries_stable zero = Stable.pure _
entries_stable (suc n) = Stable.bind _ Stable.peek_ok λ fine.
    choice fine _ _
      (Stable.bind _ entry_stable λ e. Stable.bind _ (entries_stable n) λ entries. Stable.pure _)
      (Stable.pure _)

-- A lower bound that is met stays met.
enough_signature :
    (count a b : ℕ) → a ≤ b → ltb (a + 20) (count * 20) ≡ false → ltb (b + 20) (count * 20) ≡ false
enough_signature count a b le h = ground arith

enough_list :
    (count a b : ℕ)
    → a ≤ b
    → ltb a (count * list_entry_floor) ≡ false
    → ltb b (count * list_entry_floor) ≡ false
enough_list count a b le h = ground arith

pub signature_stable : Stable Accepted read_signature
unfolding read_signature
signature_stable = Stable.bind _ Stable.u32 λ block_length.
    Stable.bind _ Stable.u32 λ strong_length. Stable.bind _ Stable.u64 λ file_length.
      Stable.bind _ Stable.u32 λ count.
        Stable.guarded _ _ _ (λ refused. refused) (enough_signature count)
          (Stable.bind _ (sums_stable count) λ sums. Stable.pure _)

pub list_reply_stable : Stable Accepted read_list_reply
unfolding read_list_reply
list_reply_stable = Stable.bind _ Stable.u64 λ id. Stable.bind _ Stable.flag λ found.
    Stable.bind _ Stable.u32 λ count.
      Stable.guarded _ _ _ (λ refused. refused) (enough_list count)
        (Stable.bind _ (entries_stable count) λ entries.
          Stable.bind _ attrs_stable λ self. Stable.bind _ attrs_stable λ parent. Stable.pure _)
