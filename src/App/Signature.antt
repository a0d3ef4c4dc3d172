-- ===== src/App/Signature.antt =====
-- src/app/signature.cc: the sizes that rsync's rules give, and the block sums of a basis file. The
-- strong checksum is xxHash's, a parameter.
pub mod Sizes
pub mod Blocks
use rail.Prelude.{
  ℕ, zero, suc, ◌+◌, ◌-◌, ◌*◌, ◌/◌, ◌%◌, ◌^◌, Bool, ◌&&◌, not, List, [], ◌∷◌, ◌++◌, length, min,
  max, ltb, leb, ◌==◌, if◌then◌else◌,
}
use rail.Result.{Result, ok, fail_message, ◌>>=◌}
use rail.Proto.Bytes.{Bytes}
use rail.Proto.Message.{BlockSum, Signature}
use rail.Fs.Reader
use rail.Fs.Reader.{FileReader}
use rail.App.Checksum.{weak_checksum}

-- kDefaultBlockSize and kBlockSumBias
abbrev pub default_block_size : ℕ
default_block_size = 700

abbrev pub block_sum_bias : ℕ
block_sum_bias = 10

-- for (uint64_t L = FileLength; L >>= 2;) C <<= 1, on a uint32_t C. A uint64_t is gone
-- after 31.
unfoldable pub first_bit : ℕ → ℕ → ℕ → ℕ
first_bit zero l c = c
first_bit (suc fuel) l c =
    let rest = first_bit fuel (l / 4) (c * 2 % 2 ^ 32) in if l / 4 == 0 then c else rest

-- B |= C and B &= ~C, for a C that is one bit.
unfoldable pub set_bit : ℕ → ℕ → ℕ
set_bit b c = if b / c % 2 == 0 then b + c else b

unfoldable pub clear_bit : ℕ → ℕ → ℕ
clear_bit b c = if b / c % 2 == 0 then b else b - c

-- One round of the do loop.
unfoldable pub try_bit : ℕ → ℕ → ℕ → ℕ
unfolding set_bit clear_bit
try_bit file_length b c =
    let tried = set_bit b c in if ltb file_length (tried * tried) then clear_bit tried c else tried

-- do { … C >>= 1; } while (C >= 8): a uint32_t C is below 8 in 32 rounds.
unfoldable pub refine : ℕ → ℕ → ℕ → ℕ → ℕ
refine zero file_length b c = b
refine (suc fuel) file_length b c =
    let b' = try_bit file_length b c in
    let rest = refine fuel file_length b' (c / 2) in if leb 8 (c / 2) then rest else b'

unfoldable pub choose_block_length : ℕ → ℕ → ℕ
choose_block_length file_length max_block_size =
    let c = first_bit 31 file_length 1 in
    if leb file_length (default_block_size * default_block_size)
    then default_block_size
    else if c == 0
    then max_block_size
    else if leb max_block_size c
    then max_block_size
    else max (refine 32 file_length 0 c) default_block_size

-- for (uint64_t L = FileLength; L >>= 1;) B += 2
unfoldable pub add_bits : ℕ → ℕ → ℕ → ℕ
add_bits zero l b = b
add_bits (suc fuel) l b = let rest = add_bits fuel (l / 2) (b + 2) in if l / 2 == 0 then b else rest

-- for (uint32_t C = BlockLength; (C >>= 1) && B;) B--
unfoldable pub drop_bits : ℕ → ℕ → ℕ → ℕ
drop_bits zero c b = b
drop_bits (suc fuel) c b =
    let rest = drop_bits fuel (c / 2) (b - 1) in
    if not (c / 2 == 0) && not (b == 0) then rest else b

-- (B + 1 - 32 + 7) / 8 clamped to [2, 16]. The int is B - 24, and where that is negative so is the
-- quotient, or it is 0: the clamp gives 2 there as it does for 0.
unfoldable pub choose_strong_length : ℕ → ℕ → ℕ
choose_strong_length file_length block_length =
    let b = drop_bits 32 block_length (add_bits 64 file_length block_sum_bias) in
    max 2 (min 16 ((b - 24) / 8))

-- The offset of a block, and what is left of the file from there on, as uint64_t.
unfoldable pub block_length_at : Signature → ℕ → ℕ
block_length_at sig index =
    let left = (sig.file_length + 2 ^ 64 - index * sig.block_length) % 2 ^ 64 in
    if sig.block_length == 0
    then 0
    else if leb (length sig.sums) index
    then 0
    else min left sig.block_length

module _ (strong_checksum : Bytes → Bytes) where
  -- The loop of buildSignature: each round reads a byte at least, or ends it.
  unfoldable pub sum_blocks : FileReader → ℕ → ℕ → ℕ → List BlockSum → Result (List BlockSum)
  sum_blocks basis zero block offset sums =
      if ltb offset basis.size then fail_message "out of fuel" else ok sums
  sum_blocks basis (suc fuel) block offset sums =
      let round = do
        view ← Reader.read basis (min block (basis.size - offset)) offset
        if length view == 0
            then ok sums
            else sum_blocks basis fuel block (offset + length view)
                (sums ++ (record { weak = weak_checksum view; strong = strong_checksum view } ∷ []))
      in if ltb offset basis.size then round else ok sums

  unfoldable pub build_signature : FileReader → ℕ → ℕ → Result Signature
  build_signature basis block strong =
      let with_sums : List BlockSum → Signature = λ sums. record {
        block_length = block;
        strong_length = strong;
        file_length = basis.size;
        sums = sums;
      } in
      let read_all = do sums ← sum_blocks basis basis.size block 0 []; ok (with_sums sums)
      in if basis.size == 0
        then ok (with_sums [])
        else if block == 0
        then ok (with_sums [])
        else read_all
