-- ===== src/App/Differ/Emitting.antt =====
-- What emitLiteral and emitCopy send, to a sink that keeps each instruction.
use rail.Prelude.{
  ℕ, zero, suc, ◌+◌, ◌-◌, ◌≤◌, ◌<◌, ◌≡◌, refl, sym, ap, ◌∙◌, Bool-cases, inl, inr, true, false,
  ◌==◌, some, List, [], ◌∷◌, ◌++◌, length, take, drop, ltb, min, length-take, length-drop, arith,
}
use rail.Prelude.Pieces.{take-drop}
use rail.Result.{Result, ok}
use rail.Proto.Bytes.{Bytes}
use rail.Proto.Message.{Signature}
use rail.App.Signature.{block_length_at}
use rail.App.Differ.{Instruction, copy, literal, max_window}
use rail.App.Differ.Scan.{Output, emit_literal, emit_copy, emit_upto}
use rail.App.Differ.Rebuild.{
  and_then, basis_block, apply_literal, apply_copy, apply, rebuild, rebuild-append,
}

abbrev pub keep : Instruction → List Instruction → Result (List Instruction)
keep i sent = ok (sent ++ (i ∷ []))

module _ (page_bytes : ℕ) (source basis : Bytes) (sig : Signature) where
  -- What is sent rebuilds the source up to `at`, and the cursor stands there.
  pub record Upto (out : Output (List Instruction)) (at : ℕ) : Type 0 where
    pub rebuilt : rebuild page_bytes source basis sig out.sent [] ≡ some (take at source)
    pub cursor : out.dst_cursor ≡ at
    pub within : at ≤ length source

  pub Upto-at : (out : Output (List Instruction)) (a b : ℕ) → a ≡ b → Upto out a → Upto out b
  Upto-at out a b same h = rw (sym same) h

  next_piece :
      (out : Output (List Instruction)) (at n : ℕ) (i : Instruction)
      → Upto out at
      → apply page_bytes source basis sig i (take at source)
        ≡ some (take at source ++ take n (drop at source))
      → rebuild page_bytes source basis sig (out.sent ++ (i ∷ [])) [] ≡ some (take (at + n) source)
  next_piece out at n i h same =
      rebuild-append page_bytes source basis sig out.sent i []
      ∙ ap (and_then (apply page_bytes source basis sig i)) h.rebuilt
      ∙ same
      ∙ ap some (take-drop at n source)

  reached :
      (out : Output (List Instruction)) (at : ℕ)
      → Upto out at
      → (out.dst_cursor == length (take at source)) ≡ true
  reached out at h = ground (arith, h.cursor, h.within, length-take at source)

  literal-Upto :
      (out : Output (List Instruction)) (at n literals matches : ℕ)
      → Upto out at
      → at + n ≤ length source
      → n ≤ page_bytes
      → Upto
          (record {
            sent = out.sent ++ (literal at out.dst_cursor n ∷ []);
            dst_cursor = out.dst_cursor + n;
            literal_bytes = literals;
            matched_bytes = matches;
          })
          (at + n)
  unfolding apply apply_literal
  literal-Upto out at n literals matches h inside paged = record {
    rebuilt =
        next_piece out at n (literal at out.dst_cursor n) h (rw (fits_page, reached out at h) refl);
    cursor = omega (arith, h.cursor);
    within = inside;
  }
    where
      fits_page : ltb page_bytes n ≡ false
      fits_page = ground arith

  copy-Upto :
      (out : Output (List Instruction)) (at i n literals matches : ℕ) (bytes : Bytes)
      → Upto out at
      → at + n ≤ length source
      → 0 < n
      → block_length_at sig i ≡ n
      → basis_block source basis sig i ≡ take n (drop at source)
      → Upto
          (record {
            sent = out.sent ++ (copy i at out.dst_cursor (length bytes) bytes ∷ []);
            dst_cursor = out.dst_cursor + n;
            literal_bytes = literals;
            matched_bytes = matches;
          })
          (at + n)
  unfolding apply apply_copy
  copy-Upto out at i n literals matches bytes h inside pos long same = record {
    rebuilt =
        next_piece out at n (copy i at out.dst_cursor (length bytes) bytes) h
          (rw (long, some_bytes, same, whole, reached out at h) refl);
    cursor = omega (arith, h.cursor);
    within = inside;
  }
    where
      some_bytes : (n == 0) ≡ false
      some_bytes = ground arith

      whole : (length (take n (drop at source)) == n) ≡ true
      whole = ground (arith, length-take n (drop at source), length-drop at source)

  -- Literals cover what they were asked to, in pieces.
  pub emit_literal-Upto :
      (fuel at n : ℕ) (out : Output (List Instruction))
      → max_window ≤ page_bytes
      → n ≤ fuel
      → Upto out at
      → at + n ≤ length source
      → (out' : Output (List Instruction)) × (emit_literal keep fuel at n out ≡ ok out')
        × Upto out' (at + n)
  unfolding emit_literal
  emit_literal-Upto fuel at zero out paged enough h inside =
      (out, refl, Upto-at out at (at + 0) (omega arith) h)
  emit_literal-Upto zero at (suc n) out paged enough h inside = absurd (omega arith)
  emit_literal-Upto (suc fuel) at (suc n) out paged enough h inside =
      let piece = min (suc n) max_window in
      let end : at + piece + (suc n - piece) ≡ at + suc n = omega arith in
      let (out', same, upto) =
        emit_literal-Upto fuel (at + piece) (suc n - piece) _ paged (omega arith)
          (literal-Upto out at piece (out.literal_bytes + piece) out.matched_bytes h (omega arith)
            (omega arith))
          (omega arith) in
      (out', same, Upto-at out' _ _ end upto)

  pub emit_upto-Upto :
      (from at : ℕ) (out : Output (List Instruction))
      → max_window ≤ page_bytes
      → Upto out from
      → from ≤ at
      → at ≤ length source
      → (out' : Output (List Instruction)) × (emit_upto keep from at out ≡ ok out') × Upto out' at
  unfolding emit_upto
  emit_upto-Upto from at out paged h le inside = elim (Bool-cases (ltb from at)) [
    | inl some_bytes ↦
        let end : from + (at - from) ≡ at = omega arith in
        let (out', same, upto) =
          emit_literal-Upto (at - from) from (at - from) out paged (omega arith) h (omega arith) in
        (out', rw some_bytes same, Upto-at out' _ _ end upto)
    | inr nothing ↦
        let end : from ≡ at = ground arith in (out, rw nothing refl, Upto-at out _ _ end h)
  ]

  pub emit_copy-Upto :
      (i at : ℕ) (bytes : Bytes) (out : Output (List Instruction))
      → Upto out at
      → at + length bytes ≤ length source
      → 0 < length bytes
      → block_length_at sig i ≡ length bytes
      → basis_block source basis sig i ≡ take (length bytes) (drop at source)
      → (out' : Output (List Instruction)) × (emit_copy keep i at bytes out ≡ ok out')
        × Upto out' (at + length bytes)
  unfolding emit_copy
  emit_copy-Upto i at bytes out h inside pos long same = (
    _,
    refl,
    copy-Upto out at i (length bytes) out.literal_bytes (out.matched_bytes + length bytes) bytes h
        inside pos long same,
  )
