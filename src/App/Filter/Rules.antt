-- ===== src/App/Filter/Rules.antt =====
-- Where a rule applies, and which of the rules decides.
use rail.Prelude.{
  ℕ, suc, ◌≡◌, refl, Bool, true, false, Option, none, some, List, [], ◌∷◌, ◌++◌, length, All,
}
use rail.App.Filter.{Text, behind_slash, Rule, applies, allows}

-- What the loop of matchesAnywhere comes to: the path, and what behind_slash gives again and again.
data EndsIn : Text → Text → Type 0 where
  whole : {path : Text} → EndsIn path path
  behind :
      {path rest tail : Text} → behind_slash path ≡ some rest → EndsIn rest tail → EndsIn path tail

abbrev left : Option Text → ℕ
left none = 0
left (some rest) = suc (length rest)

abbrev get_or_else : Text → Option Text → Text
get_or_else path none = path
get_or_else path (some rest) = rest

-- The first rule that applies to a path decides on it, whatever rules follow.
pub allows_first :
    (front : List Rule) (rule : Rule) (rest : List Rule) (relative : Text) (directory : Bool)
    → All (λ r. applies r relative directory ≡ false) front
    → applies rule relative directory ≡ true
    → allows (front ++ (rule ∷ rest)) relative directory ≡ rule.include
unfolding allows
allows_first [] rule rest relative directory none_applies h = rw h refl
allows_first (r ∷ front) rule rest relative directory (skips, none_applies) h =
    rw skips (allows_first front rule rest relative directory none_applies h)
