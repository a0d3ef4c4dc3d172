-- ===== src/Tests/Delta.antt =====
-- The delta algorithm: runs and instances.
use rail.Prelude.{
  ℕ, zero, suc, ◌+◌, ◌-◌, ◌*◌, ◌^◌, ◌≤◌, ◌<◌, ◌≡◌, ◌⊎◌, refl, ap, true, All, ◌%◌, List, [], ◌∷◌,
  length, drop, leb, min, max, some, arith,
}
use rail.Result.{ok}
use rail.Proto.Bytes.{Bytes, IsByte}
use rail.Proto.Message.{Signature}
use rail.Prelude.Pieces.{drop_all}
use rail.Fs.Reader
use rail.Fs.Reader.{FileReader, Serves, read-take}
use rail.App.Checksum.{weak_checksum, counted, by_four, by_one, four, roll_weak, extend}
use rail.App.Checksum.Rolling.{total, weighted, weak_checksum-closed, roll_weak-weak_checksum}
use rail.App.Signature.{choose_block_length, block_length_at, build_signature}
use rail.App.Signature.Sizes.{IsRoot, choose_block_length-IsRoot}
use rail.App.Differ.{Instruction, Hits}
use rail.App.Differ.Scan.{Output, diff}
use rail.App.Differ.Rebuild.{rebuild, basis_block}
use rail.App.Differ.Emitting.{keep}
use rail.App.Differ.Rounds.{Distinguishes}
use rail.App.Differ.Ending.{diff-rebuild}
use rail.App.Differ.Delta.{NoCollision, build_signature-diff}
use rail.App.Signature.Blocks.{IsWhole, build_signature-IsWhole}

roll_weak-weak_checksum_example :
    roll_weak (weak_checksum (200 ∷ 2 ∷ 3 ∷ [])) 200 255 3 ≡ weak_checksum (2 ∷ 3 ∷ 255 ∷ [])
roll_weak-weak_checksum_example =
    roll_weak-weak_checksum 200 (2 ∷ 3 ∷ []) 255 (omega arith) (omega arith) (omega arith)

weak_checksum-closed_example : weak_checksum (1 ∷ 2 ∷ 255 ∷ []) ≡ 2 + 6 * 2 ^ 16
unfolding total weighted extend
weak_checksum-closed_example = weak_checksum-closed (1 ∷ 2 ∷ 255 ∷ []) (omega arith)

choose_block_length-IsRoot_example :
    ((1000000 ≤ 490000) × (choose_block_length 1000000 131072 ≡ 700))
    ⊎ ((490000 < 1000000)
        × (j : ℕ) × (4 ^ j ≤ 1000000)
        × (1000000 < 4 ^ suc j)
        × (((131072 ≤ 2 ^ j) × (choose_block_length 1000000 131072 ≡ 131072))
            ⊎ ((2 ^ j < 131072)
                × (r : ℕ) × IsRoot 8 1000000 r
                × (choose_block_length 1000000 131072 ≡ max r 700))))
choose_block_length-IsRoot_example = choose_block_length-IsRoot 1000000 131072 (omega arith)

-- A file whose every read but the last moves at most three bytes.
abbrev source : Bytes
source = 9 ∷ 1 ∷ 2 ∷ 3 ∷ 4 ∷ 8 ∷ 7 ∷ []

abbrev file : FileReader
file = record {
  size = 7;
  contents = source;
  pread = λ want offset. ok (min (min want 3) (7 - offset));
}

file-Serves : Serves file
file-Serves = record {
  moves = λ want offset w o.
      (min (min want 3) (7 - offset), refl, omega arith, omega arith, omega arith);
  ends = λ want offset o. ap ok (omega arith);
}

read-take_example : Reader.read file 5 1 ≡ ok (1 ∷ 2 ∷ 3 ∷ 4 ∷ 8 ∷ [])
read-take_example = read-take file 5 1 file-Serves

-- A checksum of one byte that tells no two blocks of one length apart: their weak sums do.
abbrev one_byte : Bytes → Bytes
one_byte block = length block % 256 ∷ []

abbrev basis : Bytes
basis = 1 ∷ 2 ∷ 3 ∷ 4 ∷ []

abbrev basis_signature : Signature
basis_signature = record {
  block_length = 4;
  strong_length = 1;
  file_length = 4;
  sums = record { weak = 20 * 2 ^ 16 + 10; strong = 4 ∷ [] } ∷ [];
}

source-bytes : All IsByte source
source-bytes = (
  omega arith,
  (
    omega arith,
    (omega arith, (omega arith, (omega arith, (omega arith, (omega arith, record {}))))),
  ),
)

no_block : (i : ℕ) → block_length_at basis_signature (suc i) ≡ 0
unfolding block_length_at
no_block i = let past : leb 1 (suc i) ≡ true = ground arith in rw past refl

basis_signature-Distinguishes : Distinguishes one_byte basis_signature source basis
unfolding basis_block block_length_at weak_checksum counted by_four by_one four extend
basis_signature-Distinguishes zero zero inside weak same = absurd (omega (arith, weak))
basis_signature-Distinguishes zero (suc zero) inside weak same = refl
basis_signature-Distinguishes zero (suc (suc zero)) inside weak same = absurd (omega (arith, weak))
basis_signature-Distinguishes zero (suc (suc (suc zero))) inside weak same =
    absurd (omega (arith, weak))
basis_signature-Distinguishes zero (suc (suc (suc (suc at)))) inside weak same =
    absurd (omega (arith, inside))
basis_signature-Distinguishes (suc i) at inside weak same = rw (no_block i) refl

abbrev no_hits : Hits
no_hits = record { hash_hits = 0; false_alarms = 0 }

abbrev nothing_sent : Output (List Instruction)
nothing_sent = record { sent = []; dst_cursor = 0; literal_bytes = 0; matched_bytes = 0 }

diff-rebuild_example :
    (hits : Hits) × (out : Output (List Instruction)) × (diff keep one_byte basis_signature 32 file
        no_hits nothing_sent
      ≡ ok (hits, out))
    × (rebuild (4 * 2 ^ 20) source basis basis_signature out.sent [] ≡ some source)
diff-rebuild_example =
    diff-rebuild one_byte basis_signature 32 (4 * 2 ^ 20) file basis no_hits nothing_sent
      file-Serves refl source-bytes basis_signature-Distinguishes (omega arith) (omega arith) refl

-- A basis that ends in a short block.
abbrev old_file : FileReader
old_file = record {
  size = 6;
  contents = 1 ∷ 2 ∷ 3 ∷ 4 ∷ 8 ∷ 7 ∷ [];
  pread = λ want offset. ok (min (min want 3) (6 - offset));
}

old_file-Serves : Serves old_file
old_file-Serves = record {
  moves = λ want offset w o.
      (min (min want 3) (6 - offset), refl, omega arith, omega arith, omega arith);
  ends = λ want offset o. ap ok (omega arith);
}

old_file-NoCollision : NoCollision one_byte old_file.contents source 4 1
unfolding weak_checksum counted by_four by_one four extend
old_file-NoCollision zero zero inside weak same = absurd (omega (arith, weak))
old_file-NoCollision zero (suc zero) inside weak same = refl
old_file-NoCollision zero (suc (suc zero)) inside weak same = absurd (omega (arith, weak))
old_file-NoCollision zero (suc (suc (suc zero))) inside weak same = absurd (omega (arith, weak))
old_file-NoCollision zero (suc (suc (suc (suc at)))) inside weak same =
    absurd (omega (arith, inside))
old_file-NoCollision (suc zero) zero inside weak same = absurd (omega (arith, weak))
old_file-NoCollision (suc zero) (suc zero) inside weak same = absurd (omega (arith, weak))
old_file-NoCollision (suc zero) (suc (suc zero)) inside weak same = absurd (omega (arith, weak))
old_file-NoCollision (suc zero) (suc (suc (suc zero))) inside weak same =
    absurd (omega (arith, weak))
old_file-NoCollision (suc zero) (suc (suc (suc (suc zero)))) inside weak same =
    absurd (omega (arith, weak))
old_file-NoCollision (suc zero) (suc (suc (suc (suc (suc zero))))) inside weak same = refl
old_file-NoCollision (suc zero) (suc (suc (suc (suc (suc (suc at)))))) inside weak same =
    absurd (omega (arith, inside))
old_file-NoCollision (suc (suc i)) at inside weak same =
    let past : drop (suc (suc i) * 4) old_file.contents ≡ [] =
      drop_all (suc (suc i) * 4) old_file.contents (omega arith) in
    rw past refl

build_signature-diff_example :
    (sig : Signature) × (hits : Hits) × (out : Output (List Instruction)) × (build_signature
        one_byte old_file 4 1
      ≡ ok sig)
    × (diff keep one_byte sig 32 file no_hits nothing_sent ≡ ok (hits, out))
    × (rebuild (4 * 2 ^ 20) source old_file.contents sig out.sent [] ≡ some source)
build_signature-diff_example =
    build_signature-diff one_byte old_file file 4 1 32 (4 * 2 ^ 20) no_hits nothing_sent
      old_file-Serves file-Serves refl refl (omega arith) (omega arith) (omega arith) (omega arith)
      source-bytes old_file-NoCollision refl

build_signature-IsWhole_example :
    (sig : Signature) × (build_signature one_byte old_file 4 4 ≡ ok sig)
    × (sig.block_length ≡ 4)
    × (sig.strong_length ≡ 4)
    × (sig.file_length ≡ 6)
    × IsWhole one_byte old_file.contents 4 sig.sums
build_signature-IsWhole_example =
    build_signature-IsWhole one_byte old_file 4 4 old_file-Serves refl (omega arith)
