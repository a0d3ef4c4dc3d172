-- ===== src/App/Differ/Delta.antt =====
-- The whole algorithm: the signature that buildSignature makes of the basis, the scan against it,
-- and the receiver's work.
use rail.Prelude.{
  ℕ, suc, ◌+◌, ◌-◌, ◌*◌, ◌%◌, ◌^◌, ◌≤◌, ◌<◌, ◌≡◌, refl, sym, ap, ◌∙◌, Bool-cases, inl, inr, true,
  false, leb, ltb, ◌==◌, some, All, List, [], length, take, drop, min, length-take, length-drop,
  arith,
}
use native.Mathlib.Nat.{mul-le-mul_right}
use rail.Result.{ok}
use rail.Proto.Bytes.{Bytes, IsByte}
use rail.Proto.Message.{Signature}
use rail.Fs.Reader.{FileReader, Serves}
use rail.App.Checksum.{weak_checksum}
use rail.App.Signature.{block_length_at, build_signature}
use rail.App.Signature.Blocks.{IsWhole, take-min, build_signature-IsWhole}
use rail.App.Differ.{Instruction, Hits, same_bytes, strong_matches, max_window}
use rail.App.Differ.Scan.{Output, diff}
use rail.App.Differ.Rebuild.{basis_block, rebuild}
use rail.App.Differ.Emitting.{keep}
use rail.App.Differ.Rounds.{Distinguishes}
use rail.App.Differ.Ending.{diff-rebuild}

-- No stretch of the source has both the weak sum of a block of the basis and the first `strong`
-- bytes of its checksum, but one that is that block. The last block may be a short one.
abbrev pub NoCollision : (Bytes → Bytes) → Bytes → Bytes → ℕ → ℕ → Type 0
NoCollision strong_checksum basis source block strong =
    (i at : ℕ)
    → at + length (take block (drop (i * block) basis)) ≤ length source
    → weak_checksum (take (length (take block (drop (i * block) basis))) (drop at source))
      ≡ weak_checksum (take block (drop (i * block) basis))
    → same_bytes strong
        (strong_checksum (take (length (take block (drop (i * block) basis))) (drop at source)))
        (strong_checksum (take block (drop (i * block) basis)))
      ≡ true
    → take (length (take block (drop (i * block) basis))) (drop at source)
      ≡ take block (drop (i * block) basis)

block_length_at-past : (sig : Signature) (i : ℕ) → length sig.sums ≤ i → block_length_at sig i ≡ 0
unfolding block_length_at
block_length_at-past sig i h =
    let past : leb (length sig.sums) i ≡ true = ground arith in
    elim (Bool-cases (sig.block_length == 0)) [
      | inl none_long ↦ rw none_long refl
      | inr long ↦ rw (long, past) refl
    ]

block_length_at-min :
    (sig : Signature) (i : ℕ)
    → i < length sig.sums
    → 0 < sig.block_length
    → i * sig.block_length ≤ sig.file_length
    → sig.file_length < 2 ^ 64
    → block_length_at sig i ≡ min sig.block_length (sig.file_length - i * sig.block_length)
unfolding block_length_at
block_length_at-min sig i h pos inside fits =
    let there : leb (length sig.sums) i ≡ false = ground arith in
    let long : (sig.block_length == 0) ≡ false = ground arith in
    let plain : (sig.file_length + 2 ^ 64 - i * sig.block_length) % 2 ^ 64
        ≡ sig.file_length - i * sig.block_length =
      omega arith in
    rw (long, there, plain) (omega arith)

module _ (strong_checksum : Bytes → Bytes) (basis source : Bytes) (sig : Signature)
    (pos : 0 < sig.block_length) (measured : sig.file_length ≡ length basis)
    (fits : length basis < 2 ^ 64) (whole : IsWhole strong_checksum basis sig.block_length sig.sums)
    (apart : NoCollision strong_checksum basis source sig.block_length sig.strong_length) where
  starts_inside : (i : ℕ) → i < length sig.sums → i * sig.block_length ≤ length basis
  starts_inside i h =
      let upto : suc i * sig.block_length ≤ length sig.sums * sig.block_length =
        mul-le-mul_right sig.block_length h in
      let next : suc i * sig.block_length ≡ i * sig.block_length + sig.block_length = omega arith in
      omega (arith, whole.needed)

  pub IsWhole-Distinguishes : Distinguishes strong_checksum sig source basis
  unfolding basis_block strong_matches
  IsWhole-Distinguishes i at inside weak_same same = elim (Bool-cases (ltb i (length sig.sums))) [
    | inr past ↦ rw (block_length_at-past sig i (ground (arith, past))) refl
    | inl there ↦
        let h : i < length sig.sums = ground (arith, there) in
        let len = block_length_at sig i in
        let block = drop (i * sig.block_length) basis in
        let is : len ≡ min sig.block_length (length block) =
          block_length_at-min sig i h pos (omega (arith, starts_inside i h)) (omega arith)
          ∙ ap (min sig.block_length) (omega (arith, length-drop (i * sig.block_length) basis)) in
        let all : take len block ≡ take sig.block_length block =
          ap (λ n. take n block) is ∙ take-min sig.block_length block in
        let long : length (take sig.block_length block) ≡ len =
          length-take sig.block_length block ∙ sym is in
        let summed = whole.summed.sum i h in
        let sums_same : same_bytes sig.strong_length (strong_checksum (take len (drop at source)))
              (strong_checksum (take sig.block_length block))
            ≡ true =
          sym (
            ap
              (λ s.
                same_bytes sig.strong_length (strong_checksum (take len (drop at source))) s.strong)
              summed)
          ∙ same in
        all
        ∙ sym (
            ap (λ n. take n (drop at source)) (sym long)
            ∙ apart i at (omega (arith, long))
                (ap (λ n. weak_checksum (take n (drop at source))) long
                  ∙ weak_same
                  ∙ ap (λ s. s.weak) summed)
                (rw long sums_same))
  ]

-- The delta algorithm end to end: a basis file that is served as it was measured has a signature,
-- the scan of a source of bytes against it comes to its end, and the instructions it emits rebuild
-- the source from that basis. The blocks are shorter than the window, the receiver's pages are as
-- long as the window, and no stretch of this source has both the weak sum of a block of this basis
-- and as much of its strong checksum as the signature compares, but one that is that block.
pub build_signature-diff :
    (strong_checksum : Bytes → Bytes) (basis src : FileReader)
    (block strong max_chain_len page_bytes : ℕ) (hits : Hits) (rep : Output (List Instruction))
    → Serves basis
    → Serves src
    → basis.size ≡ length basis.contents
    → src.size ≡ length src.contents
    → basis.size < 2 ^ 64
    → 0 < block
    → block < max_window
    → max_window ≤ page_bytes
    → All IsByte src.contents
    → NoCollision strong_checksum basis.contents src.contents block strong
    → rep.sent ≡ []
    → (sig : Signature) × (hits' : Hits) × (out : Output (List Instruction)) × (build_signature
          strong_checksum basis block strong
        ≡ ok sig)
      × (diff keep strong_checksum sig max_chain_len src hits rep ≡ ok (hits', out))
      × (rebuild page_bytes src.contents basis.contents sig out.sent [] ≡ some src.contents)
build_signature-diff strong_checksum basis src block strong max_chain_len page_bytes hits rep serves
      law measured measured' fits pos short paged bytes apart fresh =
    let (sig, built, is_block, is_strong, is_length, whole) =
      build_signature-IsWhole strong_checksum basis block strong serves measured pos in
    let distinct =
      IsWhole-Distinguishes strong_checksum basis.contents src.contents sig
        (omega (arith, is_block)) (is_length ∙ measured) (omega arith) (rw is_block whole)
        (rw (is_block, is_strong) apart) in
    let (hits', out, scanned, rebuilt) =
      diff-rebuild strong_checksum sig max_chain_len page_bytes src basis.contents hits rep law
        measured' bytes distinct (omega (arith, is_block)) paged fresh in
    (sig, hits', out, built, scanned, rebuilt)
