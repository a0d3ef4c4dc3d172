-- ===== src/App/Differ/Rolled.antt =====
-- The weak sum that the scan rolls stays the checksum of the stretch at its offset.
use rail.Prelude.{
  ℕ, zero, suc, ◌+◌, ◌-◌, ◌^◌, ◌≤◌, ◌<◌, ◌≡◌, refl, sym, ap, ◌∙◌, [], ◌∷◌, ◌++◌, length, get_or,
  take, drop, All, length-take, length-drop, arith,
}
use rail.Proto.Bytes.{Bytes, IsByte}
use rail.App.Checksum.{weak_checksum, roll_weak}
use rail.App.Checksum.Rolling.{roll_weak-weak_checksum}
use rail.App.Differ.Scan.{Window}
use rail.App.Differ.Windows.{Shows}

get_or-IsByte : (i : ℕ) (xs : Bytes) → All IsByte xs → IsByte (get_or xs i 0)
get_or-IsByte i [] h = omega arith
get_or-IsByte zero (x ∷ xs) (hx, hs) = hx
get_or-IsByte (suc i) (x ∷ xs) (hx, hs) = get_or-IsByte i xs hs

get_or-take : (i n : ℕ) (xs : Bytes) → i < n → get_or (take n xs) i 0 ≡ get_or xs i 0
get_or-take i zero xs h = absurd (omega arith)
get_or-take i (suc n) [] h = refl
get_or-take zero (suc n) (x ∷ xs) h = refl
get_or-take (suc i) (suc n) (x ∷ xs) h = get_or-take i n xs (omega arith)

get_or-drop : (i k : ℕ) (xs : Bytes) → get_or (drop k xs) i 0 ≡ get_or xs (k + i) 0
get_or-drop i zero xs = let e : zero + i ≡ i = omega arith in rw e refl
get_or-drop i (suc k) [] = refl
get_or-drop i (suc k) (x ∷ xs) =
    let e : suc k + i ≡ suc (k + i) = omega arith in rw e (get_or-drop i k xs)

-- The window's byte is the source's.
get_or-Shows :
    (contents : Bytes) (win : Window) (i at : ℕ)
    → Shows contents win
    → win.base + i ≡ at
    → i < win.len
    → get_or win.buffer i 0 ≡ get_or contents at 0
get_or-Shows contents win i at h there inside =
    sym (get_or-take i win.len win.buffer inside)
    ∙ ap (λ t. get_or t i 0) h.held
    ∙ get_or-take i win.len (drop win.base contents) inside
    ∙ get_or-drop i win.base contents
    ∙ ap (λ n. get_or contents n 0) there

drop-cons : (at : ℕ) (xs : Bytes) → at < length xs → drop at xs ≡ get_or xs at 0 ∷ drop (suc at) xs
drop-cons at [] h = absurd (omega arith)
drop-cons zero (x ∷ xs) h = refl
drop-cons (suc at) (x ∷ xs) h = drop-cons at xs (omega arith)

take-suc :
    (m : ℕ) (xs : Bytes) → m < length xs → take (suc m) xs ≡ take m xs ++ (get_or xs m 0 ∷ [])
take-suc m [] h = absurd (omega arith)
take-suc zero (x ∷ xs) h = refl
take-suc (suc m) (x ∷ xs) h = ap (λ t. x ∷ t) (take-suc m xs (omega arith))

-- Rolling over the source's bytes.
roll_weak-take :
    (contents : Bytes) (block at : ℕ)
    → All IsByte contents
    → 0 < block
    → block < 2 ^ 31
    → at + block < length contents
    → roll_weak
        (weak_checksum (take block (drop at contents)))
        (get_or contents at 0)
        (get_or contents (at + block) 0)
        block
      ≡ weak_checksum (take block (drop (at + 1) contents))
roll_weak-take contents zero at bytes some short inside = absurd (omega arith)
roll_weak-take contents (suc m) at bytes some short inside =
    let next = drop (suc at) contents in
    let front : take (suc m) (drop at contents) ≡ get_or contents at 0 ∷ take m next =
      ap (take (suc m)) (drop-cons at contents (omega arith)) in
    let enough : m < length next = omega (arith, length-drop (suc at) contents) in
    let last : get_or next m 0 ≡ get_or contents (at + suc m) 0 =
      get_or-drop m (suc at) contents ∙ ap (λ n. get_or contents n 0) (omega arith) in
    let moved : at + 1 ≡ suc at = omega arith in
    let back : take (suc m) (drop (at + 1) contents)
        ≡ take m next ++ (get_or contents (at + suc m) 0 ∷ []) =
      ap (λ n. take (suc m) (drop n contents)) moved
      ∙ take-suc m next enough
      ∙ ap (λ b. take m next ++ (b ∷ [])) last in
    let long : length (get_or contents at 0 ∷ take m next) ≡ suc m =
      omega (arith, length-take m next) in
    let step =
      roll_weak-weak_checksum (get_or contents at 0) (take m next) (get_or contents (at + suc m) 0)
        (get_or-IsByte at contents bytes) (get_or-IsByte (at + suc m) contents bytes)
        (omega (arith, long)) in
    ap
      (λ t.
        roll_weak (weak_checksum t) (get_or contents at 0) (get_or contents (at + suc m) 0) (suc m))
      front
    ∙ ap
        (λ n.
          roll_weak (weak_checksum (get_or contents at 0 ∷ take m next)) (get_or contents at 0)
            (get_or contents (at + suc m) 0) n)
        (sym long)
    ∙ step
    ∙ ap weak_checksum (sym back)

-- What the scan makes of the bytes of its window.
pub rolled :
    (contents : Bytes) (win : Window) (block at weak : ℕ)
    → All IsByte contents
    → Shows contents win
    → win.base ≤ at
    → 0 < block
    → block < 2 ^ 31
    → at - win.base + block < win.len
    → weak ≡ weak_checksum (take block (drop at contents))
    → roll_weak weak
        (get_or win.buffer (at - win.base) 0)
        (get_or win.buffer (at - win.base + block) 0)
        block
      ≡ weak_checksum (take block (drop (at + 1) contents))
rolled contents win block at weak bytes h low some short inside current =
    let out = get_or-Shows contents win (at - win.base) at h (omega arith) (omega arith) in
    let entering =
      get_or-Shows contents win (at - win.base + block) (at + block) h (omega arith) inside in
    rw (current, out, entering)
      (roll_weak-take contents block at bytes some short (omega (arith, h.within)))
