-- ===== src/App/Filter/Follows.antt =====
-- The rounds of globMatch as a relation: where they say true, and that its fuel is enough.
use rail.Prelude.{
  ℕ, zero, suc, ◌≤◌, ◌≡◌, ◌↔◌, inl, inr, refl, sym, ap, ◌∙◌, Bool, true, false, ◌&&◌, ◌||◌, not,
  Bool-cases, Option, none, some, [], ◌∷◌, length, ◌==◌, arith,
}
use rail.App.Filter.{
  Text, range_end, range_length, in_range, class_loop, flip, match_class, drop_stars, crosses_slash,
  behind_stars, try_skips, behind_class, take_char, go_on, glob_round, glob, glob_match,
}

-- The choices of the rounds: a star leaves the text as it is or passes a char, and any other char of
-- the pattern takes one.
pub data Follows : Text → Text → Type 0 where
  done : Follows [] []
  leave : {x : ℕ} {p t : Text} → (x == 0x2a) ≡ true → Follows (behind_stars p) t → Follows (x ∷ p) t
  pass :
      {x c : ℕ} {p t : Text}
      → (x == 0x2a) ≡ true
      → (not (crosses_slash p) && (c == 0x2f)) ≡ false
      → Follows (x ∷ p) t
      → Follows (x ∷ p) (c ∷ t)
  one :
      {x c : ℕ} {p rest t : Text}
      → (x == 0x2a) ≡ false
      → take_char x p c ≡ some rest
      → Follows rest t
      → Follows (x ∷ p) (c ∷ t)

-- How long what is left of a pattern is.
abbrev behind : Option (Bool × Text) → ℕ
behind none = 0
behind (some (matched, rest)) = length rest

abbrev left : Option Text → ℕ
left none = 0
left (some rest) = length rest

class_loop-shorter :
    (c : ℕ) (p : Text) (skip : ℕ) (first matched : Bool)
    → behind (class_loop c p skip first matched) ≤ length p
unfolding class_loop
class_loop-shorter c [] skip first matched = omega arith
class_loop-shorter c (x ∷ p) (suc skip) first matched =
    omega (arith, class_loop-shorter c p skip false matched)
class_loop-shorter c (x ∷ p) zero first matched = elim (Bool-cases ((x == 0x5d) && not first)) [
  | inl ends ↦ rw ends (omega arith)
  | inr goes ↦ rw goes (
      omega (
        arith,
        class_loop-shorter c p (range_length (range_end p)) false
            (matched || in_range c x (range_end p)),
      ))
]

flip-shorter : (negated : Bool) (o : Option (Bool × Text)) → behind (flip negated o) ≡ behind o
unfolding flip
flip-shorter negated none = refl
flip-shorter negated (some (matched, rest)) = refl

match_class-shorter : (p : Text) (c : ℕ) → behind (match_class p c) ≤ length p
unfolding match_class
match_class-shorter [] c = omega arith
match_class-shorter (x ∷ p) c = elim (Bool-cases ((x == 0x21) || (x == 0x5e))) [
  | inl negated ↦ rw (negated, flip-shorter) (omega (arith, class_loop-shorter c p 0 true false))
  | inr plain ↦ rw (plain, flip-shorter) (class_loop-shorter c (x ∷ p) 0 true false)
]

behind_class-shorter : (o : Option (Bool × Text)) → left (behind_class o) ≤ behind o
unfolding behind_class
behind_class-shorter none = omega arith
behind_class-shorter (some (true, rest)) = omega arith
behind_class-shorter (some (false, rest)) = omega arith

take_char-shorter : (x : ℕ) (p : Text) (c : ℕ) → left (take_char x p c) ≤ length p
unfolding take_char
take_char-shorter x p c = elim (Bool-cases (x == 0x3f)) [
  | inl any ↦ elim (Bool-cases (c == 0x2f)) [
    | inl slash ↦ rw (any, slash) (omega arith)
    | inr other ↦ rw (any, other) (omega arith)
  ]
  | inr not_any ↦ elim (Bool-cases (x == 0x5b)) [
    | inl class ↦
        rw (not_any, class)
          (omega (arith, behind_class-shorter (match_class p c), match_class-shorter p c))
    | inr plain ↦ elim (Bool-cases (x == c)) [
      | inl same ↦ rw (not_any, plain, same) (omega arith)
      | inr differs ↦ rw (not_any, plain, differs) (omega arith)
    ]
  ]
]

drop_stars-shorter : (p : Text) → length (drop_stars p) ≤ length p
unfolding drop_stars
drop_stars-shorter [] = omega arith
drop_stars-shorter (x ∷ p) = elim (Bool-cases (x == 0x2a)) [
  | inl star ↦ rw star (omega (arith, drop_stars-shorter p))
  | inr other ↦ rw other (omega arith)
]

behind_stars-shorter : (p : Text) → length (behind_stars p) ≤ length p
unfolding behind_stars
behind_stars-shorter p = elim (Bool-cases (crosses_slash p)) [
  | inl two ↦ rw two (drop_stars-shorter p)
  | inr single ↦ rw single (omega arith)
]

-- The tries at each place find a match where a star's chars can be chosen.
try_skips-Follows :
    (f : Text → Bool) (x : ℕ) (p t : Text)
    → (x == 0x2a) ≡ true
    → ((s : Text) → f s ≡ true → Follows (behind_stars p) s)
    → try_skips f (crosses_slash p) t ≡ true
    → Follows (x ∷ p) t
unfolding try_skips
try_skips-Follows f x p [] star sound h = leave star (sound [] h)
try_skips-Follows f x p (c ∷ t) star sound h = elim (Bool-cases (f (c ∷ t))) [
  | inl here ↦ leave star (sound (c ∷ t) here)
  | inr later ↦ elim (Bool-cases (not (crosses_slash p) && (c == 0x2f))) [
    | inl stops ↦ absurd (ground (arith, rw (later, stops) at h))
    | inr passes ↦ pass star passes (try_skips-Follows f x p t star sound (rw (later, passes) at h))
  ]
]

go_on-Follows :
    (f : Text → Text → Bool) (x c : ℕ) (p t : Text) (o : Option Text)
    → (x == 0x2a) ≡ false
    → ((r s : Text) → f r s ≡ true → Follows r s)
    → take_char x p c ≡ o
    → go_on f o t ≡ true
    → Follows (x ∷ p) (c ∷ t)
unfolding go_on
go_on-Follows f x c p t none other sound took h = absurd (ground (arith, h))
go_on-Follows f x c p t (some rest) other sound took h = one other took (sound rest t h)

glob_round-Follows :
    (f : Text → Text → Bool) (x : ℕ) (p t : Text)
    → (x == 0x2a) ≡ false
    → ((r s : Text) → f r s ≡ true → Follows r s)
    → glob_round f false x p t ≡ true
    → Follows (x ∷ p) t
unfolding glob_round
glob_round-Follows f x p [] other sound h = absurd (ground (arith, h))
glob_round-Follows f x p (c ∷ t) other sound h =
    go_on-Follows f x c p t (take_char x p c) other sound refl h

glob-Follows : (fuel : ℕ) (p t : Text) → glob fuel p t ≡ true → Follows p t
unfolding glob glob_round
glob-Follows fuel [] [] h = done
glob-Follows fuel [] (c ∷ t) h = absurd (ground (arith, h))
glob-Follows zero (x ∷ p) t h = absurd (ground (arith, h))
glob-Follows (suc fuel) (x ∷ p) t h = elim (Bool-cases (x == 0x2a)) [
  | inl star ↦
      try_skips-Follows (glob fuel (behind_stars p)) x p t star (glob-Follows fuel (behind_stars p))
        (rw star at h)
  | inr other ↦ glob_round-Follows (glob fuel) x p t other (glob-Follows fuel) (rw other at h)
]

try_skips-here :
    (f : Text → Bool) (crosses : Bool) (t : Text) → f t ≡ true → try_skips f crosses t ≡ true
unfolding try_skips
try_skips-here f crosses [] h = h
try_skips-here f crosses (c ∷ t) h = rw h refl

try_skips-pass :
    (f : Text → Bool) (crosses : Bool) (c : ℕ) (t : Text)
    → (not crosses && (c == 0x2f)) ≡ false
    → try_skips f crosses t ≡ true
    → try_skips f crosses (c ∷ t) ≡ true
unfolding try_skips
try_skips-pass f crosses c t passes h = elim (Bool-cases (f (c ∷ t))) [
  | inl here ↦ rw here refl
  | inr later ↦ rw (later, passes, h) refl
]

-- The rounds with a star, and those without.
glob-star :
    (fuel x : ℕ) (p t : Text)
    → (x == 0x2a) ≡ true
    → glob (suc fuel) (x ∷ p) t ≡ try_skips (glob fuel (behind_stars p)) (crosses_slash p) t
unfolding glob glob_round
glob-star fuel x p t star = rw star refl

Follows-glob : (fuel : ℕ) {p t : Text} → length p ≤ fuel → Follows p t → glob fuel p t ≡ true
unfolding glob glob_round go_on
Follows-glob fuel h done = refl
Follows-glob zero h (leave star m) = absurd (omega arith)
Follows-glob (suc fuel) h (leave {x} {p} {t} star m) =
    glob-star fuel x p t star
    ∙ try_skips-here (glob fuel (behind_stars p)) (crosses_slash p) t
        (Follows-glob fuel (omega (arith, behind_stars-shorter p)) m)
Follows-glob zero h (pass star passes m) = absurd (omega arith)
Follows-glob (suc fuel) h (pass {x} {c} {p} {t} star passes m) =
    glob-star fuel x p (c ∷ t) star
    ∙ try_skips-pass (glob fuel (behind_stars p)) (crosses_slash p) c t passes
        (sym (glob-star fuel x p t star) ∙ Follows-glob (suc fuel) h m)
Follows-glob zero h (one other took m) = absurd (omega arith)
Follows-glob (suc fuel) h (one {x} {c} {p} {rest} {t} other took m) =
    let shorter : length rest ≤ length p = omega (arith, take_char-shorter x p c, ap left took) in
    rw (other, took) (Follows-glob fuel (omega arith) m)

pub glob_match-Follows : (p t : Text) → (glob_match p t ≡ true) ↔ Follows p t
unfolding glob_match
glob_match-Follows p t = (glob-Follows (length p) p t, Follows-glob (length p) (omega arith))
