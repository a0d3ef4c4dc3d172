-- ===== src/App/Filter/Classes.antt =====
-- matchClass takes the chars that a class has.
use rail.Prelude.{
  ℕ, zero, suc, ◌≤◌, ◌≡◌, ◌≢◌, inl, inr, refl, sym, ap, ◌∙◌, Bool, true, false, ◌&&◌, ◌||◌, not,
  Bool-cases, Option, none, some, some-injective, ◌⊎◌, List, [], ◌∷◌, length, ◌==◌, arith,
}
use rail.App.Filter.{
  Text, char_le, range_end, range_length, in_range, class_loop, flip, match_class, behind_class,
}
use rail.App.Filter.Patterns.{
  Item, single, range, has_item, has, StaysOpen, NoRange, IsClass, close, char, span, Negates,
  ClassTakes, listed, unlisted,
}

pub differs : (x y : ℕ) → (x == y) ≡ false → x ≢ y
differs x y h e = absurd (ground (arith, h, e))

pub is_not : (x y : ℕ) → x ≢ y → (x == y) ≡ false
is_not x y h = elim (Bool-cases (x == y)) [
  | inl same ↦ absurd (h (ground (arith, same)))
  | inr other ↦ other
]

range_end-none : (p : Text) → NoRange p → range_end p ≡ none
unfolding range_end
range_end-none [] h = refl
range_end-none (d ∷ []) h = refl
range_end-none (d ∷ upper ∷ p) (inl no_dash) = rw (is_not d 0x2d no_dash) refl
range_end-none (d ∷ upper ∷ p) (inr closes) =
    let no_range : ((d == 0x2d) && not (upper == 0x5d)) ≡ false = ground (arith, closes) in
    rw no_range refl

stays_open : (first : Bool) (x : ℕ) → StaysOpen first x → ((x == 0x5d) && not first) ≡ false
stays_open first x (inl is_first) = ground (arith, is_first)
stays_open first x (inr other) = rw (is_not x 0x5d other) refl

one_more : (a b c : Bool) → ((a || b) || c) ≡ (a || (b || c))
one_more true b c = refl
one_more false b c = refl

or_false : (b : Bool) → (b || false) ≡ b
or_false true = refl
or_false false = refl

range_end-some :
    (d upper : ℕ) (p : Text) → d ≡ 0x2d → upper ≢ 0x5d → range_end (d ∷ upper ∷ p) ≡ some upper
unfolding range_end
range_end-some d upper p dash other = rw (dash, is_not upper 0x5d other) refl

-- What the loop makes of a class.
IsClass-class_loop :
    (c : ℕ) (matched : Bool) {first : Bool} {p rest : Text} {items : List Item}
    → IsClass first p items rest
    → class_loop c p 0 first matched ≡ some (matched || has c items, rest)
unfolding class_loop range_length in_range char_le
IsClass-class_loop c matched (close {x} {rest} is) =
    let ends : ((x == 0x5d) && true) ≡ true = ground (arith, is) in rw (ends, or_false matched) refl
IsClass-class_loop c matched (char {first} {x} {p} {rest} {items} stays plain m) =
    rw (stays_open first x stays, range_end-none p plain)
      (IsClass-class_loop c (matched || (x == c)) m
        ∙ ap (λ b. some (b, rest)) (one_more matched (x == c) (has c items)))
IsClass-class_loop c matched (span {first} {x} {d} {upper} {p} {rest} {items} stays dash other m) =
    let inside = has_item c (range x upper) in
    rw (stays_open first x stays, range_end-some d upper p dash other)
      (IsClass-class_loop c (matched || inside) m
        ∙ ap (λ b. some (b, rest)) (one_more matched inside (has c items)))

range_cases :
    (p : Text)
    → NoRange p
      ⊎ ((d : ℕ) × (upper : ℕ) × (q : Text) × (p ≡ d ∷ upper ∷ q) × (d ≡ 0x2d) × (upper ≢ 0x5d))
range_cases [] = inl (record {})
range_cases (d ∷ []) = inl (record {})
range_cases (d ∷ upper ∷ q) = elim (Bool-cases (d == 0x2d)) [
  | inr no_dash ↦ inl (inl (differs d 0x2d no_dash))
  | inl dash ↦ elim (Bool-cases (upper == 0x5d)) [
    | inl closes ↦ inl (inr (ground (arith, closes)))
    | inr other ↦ inr (d, upper, q, refl, ground (arith, dash), differs upper 0x5d other)
  ]
]

open_cases : (first : Bool) (x : ℕ) → ((x == 0x5d) && not first) ≡ false → StaysOpen first x
open_cases true x h = inl refl
open_cases false x h = inr (differs x 0x5d (ground (arith, h)))

-- What the loop ends well on is a class.
class_loop-IsClass :
    (c fuel : ℕ) (p : Text) (first matched m : Bool) (rest : Text)
    → length p ≤ fuel
    → class_loop c p 0 first matched ≡ some (m, rest)
    → (items : List Item) × IsClass first p items rest × (m ≡ (matched || has c items))
unfolding class_loop range_length in_range char_le
class_loop-IsClass c fuel [] first matched m rest enough h = absurd (ground (arith, h))
class_loop-IsClass c zero (x ∷ p) first matched m rest enough h = absurd (omega arith)
class_loop-IsClass c (suc fuel) (x ∷ p) first matched m rest enough h =
    elim (Bool-cases ((x == 0x5d) && not first)) [
      | inl ends ↦
          let was : some (matched, p) ≡ some (m, rest) = rw ends at h in
          let is_first : first ≡ false = ground (arith, ends) in
          let behind : p ≡ rest = ap (λ t. t.1) (some-injective _ _ was) in
          (
            [],
            rw (is_first, behind) (close {x = x} (ground (arith, ends))),
            sym (ap (λ t. t.0) (some-injective _ _ was)) ∙ sym (or_false matched),
          )
      | inr goes ↦ elim (range_cases p) [
        | inl plain ↦
            let (items, m', is) =
              class_loop-IsClass c fuel p false (matched || (x == c)) m rest (omega arith)
                (rw (goes, range_end-none p plain) at h) in
            (
              single x ∷ items,
              char (open_cases first x goes) plain m',
              is ∙ one_more matched (x == c) (has c items),
            )
        | inr (d, upper, q, is_p, dash, other) ↦
            let inside = has_item c (range x upper) in
            let (items, m', is) =
              class_loop-IsClass c fuel q false (matched || inside) m rest
                (omega (arith, ap length is_p))
                (rw (goes, is_p, range_end-some d upper q dash other) at h) in
            (
              range x upper ∷ items,
              rw is_p (span (open_cases first x goes) dash other m'),
              is ∙ one_more matched inside (has c items),
            )
      ]
    ]

-- Whether a char negates a class.
plain_class : (x : ℕ) → x ≢ 0x21 → x ≢ 0x5e → ((x == 0x21) || (x == 0x5e)) ≡ false
plain_class x h k = rw (is_not x 0x21 h, is_not x 0x5e k) refl

negated_class : (x : ℕ) → Negates x → ((x == 0x21) || (x == 0x5e)) ≡ true
negated_class x (inl is) = ground (arith, is)
negated_class x (inr is) = ground (arith, is)

pub ClassTakes-behind_class :
    (c : ℕ) {p rest : Text} → ClassTakes c p rest → behind_class (match_class p c) ≡ some rest
unfolding match_class flip behind_class
ClassTakes-behind_class c (listed {x} {p} {rest} {items} h k m in_it) =
    rw (plain_class x h k, IsClass-class_loop c false m, in_it) refl
ClassTakes-behind_class c (unlisted {x} {p} {rest} {items} h m out_of_it) =
    rw (negated_class x h, IsClass-class_loop c false m, out_of_it) refl

negates : (x : ℕ) → ((x == 0x21) || (x == 0x5e)) ≡ true → Negates x
negates x h = elim (Bool-cases (x == 0x21)) [
  | inl is ↦ inl (ground (arith, is))
  | inr other ↦ inr (ground (arith, h, other))
]

flip-some :
    (negated : Bool) (o : Option (Bool × Text)) (rest : Text)
    → behind_class (flip negated o) ≡ some rest
    → o ≡ some (not negated, rest)
unfolding flip behind_class
flip-some negated none rest h = absurd (ground (arith, h))
flip-some true (some (true, after)) rest h = absurd (ground (arith, h))
flip-some true (some (false, after)) rest h = ap (λ t. some (false, t)) (some-injective _ _ h)
flip-some false (some (true, after)) rest h = ap (λ t. some (true, t)) (some-injective _ _ h)
flip-some false (some (false, after)) rest h = absurd (ground (arith, h))

pub behind_class-ClassTakes :
    (c : ℕ) (p rest : Text) → behind_class (match_class p c) ≡ some rest → ClassTakes c p rest
unfolding match_class behind_class
behind_class-ClassTakes c [] rest h = absurd (ground (arith, h))
behind_class-ClassTakes c (x ∷ p) rest h = elim (Bool-cases ((x == 0x21) || (x == 0x5e))) [
  | inl negated ↦
      let (items, m, is) =
        class_loop-IsClass c (length p) p true false false rest (omega arith)
          (flip-some true (class_loop c p 0 true false) rest (rw negated at h)) in
      unlisted (negates x negated) m (sym is)
  | inr plain ↦
      let (items, m, is) =
        class_loop-IsClass c (suc (length p)) (x ∷ p) true false true rest (omega arith)
          (flip-some false (class_loop c (x ∷ p) 0 true false) rest (rw plain at h)) in
      listed (differs x 0x21 (ground (arith, plain))) (differs x 0x5e (ground (arith, plain))) m
        (sym is)
]
