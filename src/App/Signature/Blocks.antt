-- ===== src/App/Signature/Blocks.antt =====
-- What buildSignature sums: the basis's blocks, one after the other, and all of them.
use rail.Prelude.{
  ℕ, zero, suc, ◌+◌, ◌-◌, ◌*◌, ◌≤◌, ◌<◌, ◌≡◌, refl, ap, ◌∙◌, Bool-cases, inl, inr, false, ltb, ◌==◌,
  List, [], ◌∷◌, ◌++◌, length, get_or, take, drop, min, length-append, length-take, length-drop,
  arith,
}
use rail.Result.{ok, ◌>>=◌}
use rail.Proto.Bytes.{Bytes}
use rail.Proto.Message.{BlockSum, Signature}
use rail.Fs.Reader.{FileReader, Serves, read-take}
use rail.App.Checksum.{weak_checksum}
use rail.App.Signature.{sum_blocks, build_signature}

abbrev pub no_sum : BlockSum
no_sum = record { weak = 0; strong = [] }

get_or-front :
    (xs : List BlockSum) (x : BlockSum) (i : ℕ)
    → i < length xs
    → get_or (xs ++ (x ∷ [])) i no_sum ≡ get_or xs i no_sum
get_or-front [] x i h = absurd (omega arith)
get_or-front (y ∷ xs) x zero h = refl
get_or-front (y ∷ xs) x (suc i) h = get_or-front xs x i (omega arith)

get_or-last : (xs : List BlockSum) (x : BlockSum) → get_or (xs ++ (x ∷ [])) (length xs) no_sum ≡ x
get_or-last [] x = refl
get_or-last (y ∷ xs) x = get_or-last xs x

pub take-min : (n : ℕ) (xs : Bytes) → take (min n (length xs)) xs ≡ take n xs
take-min zero xs = rw (zero_min (length xs)) refl
  where
    zero_min : (m : ℕ) → min 0 m ≡ 0
    zero_min m = omega arith
take-min (suc n) [] = let e : min (suc n) 0 ≡ 0 = omega arith in rw e refl
take-min (suc n) (x ∷ xs) =
    let e : min (suc n) (length (x ∷ xs)) ≡ suc (min n (length xs)) = omega arith in
    rw e (ap (λ t. x ∷ t) (take-min n xs))

module _ (strong_checksum : Bytes → Bytes) where
  abbrev pub sum_of : Bytes → BlockSum
  sum_of block = record { weak = weak_checksum block; strong = strong_checksum block }

  -- The sums of the first blocks.
  pub record IsSummed (contents : Bytes) (block : ℕ) (sums : List BlockSum) : Type 0 where
    pub sum :
        (i : ℕ)
        → i < length sums
        → get_or sums i no_sum ≡ sum_of (take block (drop (i * block) contents))

  -- Of the whole file: as many blocks as it takes, and no more.
  pub record IsWhole (contents : Bytes) (block : ℕ) (sums : List BlockSum) : Type 0 where
    pub summed : IsSummed contents block sums
    pub enough : length contents ≤ length sums * block
    pub needed : length sums * block < length contents + block

  append-IsSummed :
      (contents : Bytes) (block : ℕ) (sums : List BlockSum)
      → IsSummed contents block sums
      → IsSummed contents block
          (sums ++ (sum_of (take block (drop (length sums * block) contents)) ∷ []))
  append-IsSummed contents block sums h = record { sum = at }
    where
      new : BlockSum
      new = sum_of (take block (drop (length sums * block) contents))

      at :
          (i : ℕ)
          → i < length (sums ++ (new ∷ []))
          → get_or (sums ++ (new ∷ [])) i no_sum ≡ sum_of (take block (drop (i * block) contents))
      at i below = elim (Bool-cases (ltb i (length sums))) [
        | inl front ↦
            get_or-front sums new i (ground (arith, front)) ∙ h.sum i (ground (arith, front))
        | inr last ↦
            let is : i ≡ length sums = ground (arith, last, length-append sums (new ∷ [])) in
            rw is (get_or-last sums new)
      ]

  sum_blocks-IsWhole :
      (r : FileReader) (fuel block offset : ℕ) (sums : List BlockSum)
      → Serves r
      → r.size ≡ length r.contents
      → 0 < block
      → IsSummed r.contents block sums
      → offset ≡ min (length sums * block) r.size
      → length sums * block < r.size + block
      → r.size - offset ≤ fuel
      → (sums' : List BlockSum) × (sum_blocks strong_checksum r fuel block offset sums ≡ ok sums')
        × IsWhole r.contents block sums'
  unfolding sum_blocks
  sum_blocks-IsWhole r zero block offset sums law measured pos h at some enough =
      let ended : ltb offset r.size ≡ false = ground arith in
      (sums, rw ended refl, record { summed = h; enough = omega arith; needed = omega arith })
  sum_blocks-IsWhole r (suc fuel) block offset sums law measured pos h at some enough =
      elim (Bool-cases (ltb offset r.size)) [
        | inr ended ↦ (
          sums,
          rw ended refl,
          record { summed = h; enough = ground (arith, ended); needed = omega arith },
        )
        | inl more ↦
            let short : offset < r.size = ground (arith, more) in
            let before : offset ≡ length sums * block = ground (arith, more) in
            let want = min block (r.size - offset) in
            let view = take want (drop offset r.contents) in
            let long : length view ≡ want =
              length-take want (drop offset r.contents)
              ∙ omega (arith, length-drop offset r.contents) in
            let some_bytes : (length view == 0) ≡ false = ground (arith, more, long) in
            let new = sum_of view in
            let same : view ≡ take block (drop (length sums * block) r.contents) =
              ap (λ m. take (min block m) (drop offset r.contents))
                (omega (arith, length-drop offset r.contents))
              ∙ take-min block (drop offset r.contents)
              ∙ ap (λ o. take block (drop o r.contents)) before in
            let counted : length (sums ++ (new ∷ [])) ≡ suc (length sums) =
              length-append sums (new ∷ []) ∙ omega arith in
            let product : length (sums ++ (new ∷ [])) * block ≡ length sums * block + block =
              ap (λ n. n * block) counted ∙ omega arith in
            let (sums', summed, whole) =
              sum_blocks-IsWhole r fuel block (offset + length view) (sums ++ (new ∷ [])) law
                measured pos (rw same (append-IsSummed r.contents block sums h))
                (omega (arith, product, long, before, short))
                (omega (arith, product, before, short)) (omega (arith, long, short)) in
            (sums', rw (more, read-take r want offset law, ◌>>=◌, some_bytes) summed, whole)
      ]

  -- The signature of a file is served as it was measured, and has the sums of all its blocks.
  pub build_signature-IsWhole :
      (r : FileReader) (block strong : ℕ)
      → Serves r
      → r.size ≡ length r.contents
      → 0 < block
      → (sig : Signature) × (build_signature strong_checksum r block strong ≡ ok sig)
        × (sig.block_length ≡ block)
        × (sig.strong_length ≡ strong)
        × (sig.file_length ≡ r.size)
        × IsWhole r.contents block sig.sums
  unfolding build_signature
  build_signature-IsWhole r block strong law measured pos =
      let some_block : (block == 0) ≡ false = ground arith in
      let none_yet : IsSummed r.contents block [] = record {
        sum = λ i below. absurd (omega arith);
      } in
      elim (Bool-cases (r.size == 0)) [
        | inl empty ↦ (
          _,
          rw empty refl,
          refl,
          refl,
          refl,
          record { summed = none_yet; enough = ground (arith, empty); needed = omega arith },
        )
        | inr some ↦
            let (sums, read_all, whole) =
              sum_blocks-IsWhole r r.size block 0 [] law measured pos none_yet (omega arith)
                (omega arith) (omega arith) in
            (
              record {
                block_length = block;
                strong_length = strong;
                file_length = r.size;
                sums = sums;
              },
              rw (some, some_block, read_all, ◌>>=◌) refl,
              refl,
              refl,
              refl,
              whole,
            )
      ]
