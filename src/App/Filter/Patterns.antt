-- ===== src/App/Filter/Patterns.antt =====
-- What a pattern of the filter means, apart from how src/app/filter.cc finds it out.
use rail.Prelude.{
  ℕ, ◌+◌, ◌%◌, ◌≡◌, ◌≢◌, ◌⊎◌, Bool, true, false, ◌&&◌, ◌||◌, List, [], ◌∷◌, leb, ◌==◌,
}
use rail.App.Filter.{Text}

-- What a class lists: a char, or all from one char to another.
pub data Item : Type 0 where
  single : ℕ → Item
  range : (lower upper : ℕ) → Item

-- A char as a signed number, 128 added.
abbrev pub signed : ℕ → ℕ
signed c = (c + 128) % 256

abbrev pub has_item : ℕ → Item → Bool
has_item c (single x) = x == c
has_item c (range lower upper) = leb (signed lower) (signed c) && leb (signed c) (signed upper)

abbrev pub has : ℕ → List Item → Bool
has c [] = false
has c (item ∷ items) = has_item c item || has c items

-- A `]` closes a class, unless it stands first.
abbrev pub StaysOpen : Bool → ℕ → Type 0
StaysOpen first x = (first ≡ true) ⊎ (x ≢ 0x5d)

-- No `-` and upper end follow.
abbrev pub NoRange : Text → Type 0
NoRange (d ∷ upper ∷ rest) = (d ≢ 0x2d) ⊎ (upper ≡ 0x5d)
NoRange (d ∷ []) = Unit
NoRange [] = Unit

-- The text of a class, where its first char stands or behind that, what it lists, and the text
-- behind its `]`.
pub data IsClass : Bool → Text → List Item → Text → Type 0 where
  close : {x : ℕ} {rest : Text} → x ≡ 0x5d → IsClass false (x ∷ rest) [] rest
  char :
      {first : Bool} {x : ℕ} {p rest : Text} {items : List Item}
      → StaysOpen first x
      → NoRange p
      → IsClass false p items rest
      → IsClass first (x ∷ p) (single x ∷ items) rest
  span :
      {first : Bool} {x d upper : ℕ} {p rest : Text} {items : List Item}
      → StaysOpen first x
      → d ≡ 0x2d
      → upper ≢ 0x5d
      → IsClass false p items rest
      → IsClass first (x ∷ d ∷ upper ∷ p) (range x upper ∷ items) rest

-- `!` and `^`
abbrev pub Negates : ℕ → Type 0
Negates x = (x ≡ 0x21) ⊎ (x ≡ 0x5e)

-- The class that follows a `[` takes the char, with the text behind the class.
pub data ClassTakes (c : ℕ) : Text → Text → Type 0 where
  listed :
      {x : ℕ} {p rest : Text} {items : List Item}
      → x ≢ 0x21
      → x ≢ 0x5e
      → IsClass true (x ∷ p) items rest
      → has c items ≡ true
      → ClassTakes c (x ∷ p) rest
  unlisted :
      {x : ℕ} {p rest : Text} {items : List Item}
      → Negates x
      → IsClass true p items rest
      → has c items ≡ false
      → ClassTakes c (x ∷ p) rest

abbrev pub NoStar : Text → Type 0
NoStar [] = Unit
NoStar (x ∷ p) = x ≢ 0x2a

-- A star that stands alone takes chars that are no slash, stars together take any chars, `?` takes a
-- char that is no slash, a class one that it has, and any other char itself.
pub data Matches : Text → Text → Type 0 where
  done : Matches [] []
  star_none : {x : ℕ} {p t : Text} → x ≡ 0x2a → NoStar p → Matches p t → Matches (x ∷ p) t
  star_one :
      {x c : ℕ} {p t : Text}
      → x ≡ 0x2a
      → NoStar p
      → c ≢ 0x2f
      → Matches (x ∷ p) t
      → Matches (x ∷ p) (c ∷ t)
  stars_none :
      {x y : ℕ} {p t : Text} → x ≡ 0x2a → y ≡ 0x2a → NoStar p → Matches p t → Matches (x ∷ y ∷ p) t
  stars_one :
      {x y c : ℕ} {p t : Text}
      → x ≡ 0x2a
      → y ≡ 0x2a
      → Matches (x ∷ y ∷ p) t
      → Matches (x ∷ y ∷ p) (c ∷ t)
  stars_more :
      {x y z : ℕ} {p t : Text}
      → x ≡ 0x2a
      → y ≡ 0x2a
      → z ≡ 0x2a
      → Matches (y ∷ z ∷ p) t
      → Matches (x ∷ y ∷ z ∷ p) t
  any : {x c : ℕ} {p t : Text} → x ≡ 0x3f → c ≢ 0x2f → Matches p t → Matches (x ∷ p) (c ∷ t)
  class :
      {x c : ℕ} {p rest t : Text}
      → x ≡ 0x5b
      → ClassTakes c p rest
      → Matches rest t
      → Matches (x ∷ p) (c ∷ t)
  itself :
      {x c : ℕ} {p t : Text}
      → x ≢ 0x2a
      → x ≢ 0x3f
      → x ≢ 0x5b
      → x ≡ c
      → Matches p t
      → Matches (x ∷ p) (c ∷ t)
