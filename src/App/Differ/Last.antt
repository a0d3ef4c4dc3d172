-- ===== src/App/Differ/Last.antt =====
-- What is sent behind the loop: the basis's last block where the source ends in it, and literals.
use rail.Prelude.{
  ℕ, ◌-◌, ◌≤◌, ◌<◌, ◌≡◌, refl, sym, ◌∙◌, Bool-cases, inl, inr, Bool, true, false, ◌||◌, ◌&&◌, ◌==◌,
  ltb, List, [], length, get_or, take, drop, leb, if◌then◌else◌, length-take, length-drop, arith,
}
use rail.Result.{ok, ◌>>=◌}
use rail.Proto.Bytes.{Bytes}
use rail.Fs.Reader.{read-take}
use rail.App.Checksum.{weak_checksum}
use rail.App.Signature.{block_length_at}
use rail.App.Differ.{Instruction, strong_matches}
use rail.App.Differ.Scan.{Output, Progress, matched, match_final_block, finish_scan}
use rail.App.Differ.Emitting.{keep, Upto, Upto-at, emit_upto-Upto, emit_copy-Upto}
use rail.App.Differ.Rounds.{Setting, Holds}

module _ (g : Setting) where
  -- The last block of the basis is sent as a copy only where the source ends in it.
  match_final_block-Upto :
      (from : ℕ) (out : Output (List Instruction))
      → Upto g.page_bytes g.src.contents g.basis g.sig out from
      → (matched : Bool) × (out' : Output (List Instruction)) × (match_final_block keep
            g.strong_checksum g.sig g.max_chain_len g.src from out
          ≡ ok (matched, out'))
        × Upto g.page_bytes g.src.contents g.basis g.sig out' (if matched then g.src.size else from)
  unfolding match_final_block
  match_final_block-Upto from out h =
      elim (Bool-cases
        ((last_len == 0) || leb g.sig.block_length last_len || ltb g.src.size last_len)) [
          | inl no_short ↦ (false, out, rw no_short refl, h)
          | inr short ↦
              let room : last_len ≤ g.src.size = ground (arith, short) in
              let some_bytes : 0 < last_len = ground (arith, short) in
              elim (Bool-cases (ltb at from)) [
                | inl behind ↦ (false, out, rw (short, behind) refl, h)
                | inr ahead ↦ elim (Bool-cases same) [
                  | inr differs ↦ (
                    false,
                    out,
                    rw (short, ahead, read-take g.src last_len at g.law, ◌>>=◌, differs) refl,
                    h,
                  )
                  | inl equal ↦
                      let long : length tail ≡ last_len =
                        length-take last_len (drop at g.src.contents)
                        ∙ omega (arith, length-drop at g.src.contents, g.measured, room) in
                      let strong : strong_matches g.strong_checksum g.sig last tail ≡ true =
                        ground (arith, equal) in
                      let weak_same : weak_checksum tail
                          ≡ (get_or g.sig.sums last (record { weak = 0; strong = [] })).weak =
                        ground (arith, equal) in
                      let (before, sent, upto) =
                        emit_upto-Upto g.page_bytes g.src.contents g.basis g.sig from at out g.paged
                          h (ground arith) (omega (arith, g.measured)) in
                      let (after, copied, upto') =
                        emit_copy-Upto g.page_bytes g.src.contents g.basis g.sig last at tail before
                          upto (omega (arith, g.measured, long, room))
                          (omega (arith, long, some_bytes)) (sym long)
                          (g.distinct last at (omega (arith, g.measured, room)) weak_same strong
                            ∙ rw long refl) in
                      (
                        true,
                        after,
                        rw
                            (
                              short,
                              ahead,
                              read-take g.src last_len at g.law,
                              ◌>>=◌,
                              equal,
                              sent,
                              copied,
                            )
                            refl,
                        Upto-at g.page_bytes g.src.contents g.basis g.sig after _ _
                            (omega (arith, g.measured, long, room)) upto',
                      )
                ]
              ]
        ]
    where
      last : ℕ
      last = length g.sig.sums - 1

      last_len : ℕ
      last_len = block_length_at g.sig last

      at : ℕ
      at = g.src.size - last_len

      tail : Bytes
      tail = take last_len (drop at g.src.contents)

      same : Bool
      same =
          (length tail == last_len)
          && (weak_checksum tail
              == (get_or g.sig.sums last (record { weak = 0; strong = [] })).weak)
          && strong_matches g.strong_checksum g.sig last tail

  -- The loop's end leaves the source's rest to the last block or to literals.
  pub finish_scan-Upto :
      (st : Progress (List Instruction))
      → Holds g st
      → (out : Output (List Instruction)) × (finish_scan keep g.strong_checksum g.sig
            g.max_chain_len g.src st
          ≡ ok (st.hits, out))
        × Upto g.page_bytes g.src.contents g.basis g.sig out g.src.size
  unfolding finish_scan
  finish_scan-Upto st h = elim (Bool-cases (ltb st.last_match g.src.size)) [
    | inr complete ↦ (
      st.output,
      rw complete refl,
      Upto-at g.page_bytes g.src.contents g.basis g.sig st.output _ _
          (ground (arith, h.upto.within, g.measured)) h.upto,
    )
    | inl left ↦
        let (matched, out, ended, upto) = match_final_block-Upto st.last_match st.output h.upto in
        rest matched out left ended upto
  ]
    where
      rest :
          (matched : Bool) (out : Output (List Instruction))
          → ltb st.last_match g.src.size ≡ true
          → match_final_block keep g.strong_checksum g.sig g.max_chain_len g.src st.last_match
              st.output
            ≡ ok (matched, out)
          → Upto g.page_bytes g.src.contents g.basis g.sig out
              (if matched then g.src.size else st.last_match)
          → (out' : Output (List Instruction)) × (finish_scan keep g.strong_checksum g.sig
                g.max_chain_len g.src st
              ≡ ok (st.hits, out'))
            × Upto g.page_bytes g.src.contents g.basis g.sig out' g.src.size
      rest true out left ended upto = (out, rw (left, ended, ◌>>=◌) refl, upto)
      rest false out left ended upto =
          let (out', sent, upto') =
            emit_upto-Upto g.page_bytes g.src.contents g.basis g.sig st.last_match g.src.size out
              g.paged upto (ground (arith, left)) (omega (arith, g.measured)) in
          (out', rw (left, ended, ◌>>=◌, sent) refl, upto')
