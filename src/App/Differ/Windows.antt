-- ===== src/App/Differ/Windows.antt =====
-- The window holds the source's bytes, and a refill makes it cover the block at an offset.
use rail.Prelude.{
  ℕ, zero, suc, ◌+◌, ◌-◌, ◌≤◌, ◌≡◌, refl, sym, ap, ◌∙◌, ◌⊎◌, inl, inr, ◌&&◌, List, [], ◌∷◌, ◌++◌,
  length, take, drop, leb, min, Bool-cases, length-take, length-drop, length-append, take-append_le,
  arith,
}
use rail.Prelude.Pieces.{drop-drop, take_all}
use rail.Result.{ok, ◌>>=◌}
use rail.Proto.Bytes.{Bytes}
use rail.Fs.Reader.{FileReader, Serves, read-take}
use rail.App.Differ.Scan.{Window, fill_window, ensure_window}

module _ {ℓ} {A : Type ℓ} where
  pub take-take_le : (n m : ℕ) (xs : List A) → n ≤ m → take n (take m xs) ≡ take n xs
  take-take_le zero m xs h = refl
  take-take_le (suc n) zero xs h = absurd (omega arith)
  take-take_le (suc n) (suc m) [] h = refl
  take-take_le (suc n) (suc m) (x ∷ xs) h = ap (λ t. x ∷ t) (take-take_le n m xs (omega arith))

  pub take-drop_le :
      (n m k : ℕ) (xs : List A) → k + n ≤ m → take n (drop k (take m xs)) ≡ take n (drop k xs)
  take-drop_le n m zero xs h = take-take_le n m xs (omega arith)
  take-drop_le n zero (suc k) xs h = absurd (omega arith)
  take-drop_le n (suc m) (suc k) [] h = refl
  take-drop_le n (suc m) (suc k) (x ∷ xs) h = take-drop_le n m k xs (omega arith)

  pub take-length : (xs ys : List A) → take (length xs) (xs ++ ys) ≡ xs
  take-length xs ys =
      take-append_le (length xs) xs ys (omega arith) ∙ take_all (length xs) xs (omega arith)

-- Its first `len` bytes are the source's from `base` on.
pub record Shows (contents : Bytes) (win : Window) : Type 0 where
  pub within : win.base + win.len ≤ length contents
  pub held : take win.len win.buffer ≡ take win.len (drop win.base contents)

pub Shows-here :
    (contents : Bytes) (win : Window) (n at : ℕ)
    → Shows contents win
    → win.base ≤ at
    → at + n ≤ win.base + win.len
    → take n (drop (at - win.base) win.buffer) ≡ take n (drop at contents)
Shows-here contents win n at h low high =
    let k = at - win.base in
    let there : win.base + k ≡ at = omega arith in
    let in_window : take n (drop k (take win.len win.buffer)) ≡ take n (drop k win.buffer) =
      take-drop_le n win.len k win.buffer (omega arith) in
    let in_file : take n (drop k (take win.len (drop win.base contents)))
        ≡ take n (drop k (drop win.base contents)) =
      take-drop_le n win.len k (drop win.base contents) (omega arith) in
    sym in_window
    ∙ ap (λ t. take n (drop k t)) h.held
    ∙ in_file
    ∙ ap (take n) (drop-drop win.base k contents ∙ ap (λ i. drop i contents) there)

module _ (src : FileReader) (law : Serves src) (measured : src.size ≡ length src.contents) where
  -- A window that a refill at `at` makes.
  pub record IsFresh (win : Window) (at room : ℕ) : Type 0 where
    pub shows : Shows src.contents win
    pub base : win.base ≡ at
    pub len : win.len ≡ min room (src.size - at)
    pub room_kept : length win.buffer ≡ room

  pub fill_window-IsFresh :
      (win : Window) (at : ℕ)
      → at ≤ src.size
      → (win' : Window) × (fill_window src win at ≡ ok win') × IsFresh win' at (length win.buffer)
  unfolding fill_window
  fill_window-IsFresh win at h = (
    win',
    rw (read-take src want at law, ◌>>=◌) refl,
    record {
      shows = record {
        within = omega (arith, long);
        held = take-length view _ ∙ ap (λ n. take n (drop at src.contents)) (sym long);
      };
      base = refl;
      len = long;
      room_kept = length-append view _ ∙ omega (arith, long, length-drop (length view) win.buffer);
    },
  )
    where
      want : ℕ
      want = min (length win.buffer) (src.size - at)

      view : Bytes
      view = take want (drop at src.contents)

      long : length view ≡ want
      long =
          length-take want (drop at src.contents)
          ∙ rw (length-drop at src.contents) (omega (arith, measured))

      win' : Window
      win' = record { buffer = view ++ drop (length view) win.buffer; base = at; len = length view }

  -- What the round that follows needs of a window: it covers the block, or what is left of the
  -- file.
  pub record IsReady (win : Window) (at block room : ℕ) : Type 0 where
    pub shows : Shows src.contents win
    pub low : win.base ≤ at
    pub high : min (at + block) src.size ≤ win.base + win.len
    pub room_kept : length win.buffer ≡ room

  IsFresh-IsReady :
      (win : Window) (at block room : ℕ)
      → IsFresh win at room
      → block ≤ room
      → IsReady win at block room
  IsFresh-IsReady win at block room h fits = record {
    shows = h.shows;
    low = omega (arith, h.base);
    high = omega (arith, h.base, h.len);
    room_kept = h.room_kept;
  }

  -- The window is left as it is, or it is filled at the offset.
  pub ensure_window-IsReady :
      (win : Window) (at block : ℕ)
      → Shows src.contents win
      → at ≤ src.size
      → block ≤ length win.buffer
      → (win' : Window) × (ensure_window src block win at ≡ ok win')
        × IsReady win' at block (length win.buffer)
        × ((win' ≡ win) ⊎ IsFresh win' at (length win.buffer))
  unfolding ensure_window
  ensure_window-IsReady win at block h inside fits =
      elim (Bool-cases (leb win.base at && leb (min (at + block) src.size) (win.base + win.len))) [
        | inl covers ↦ (
          win,
          rw covers refl,
          record { shows = h; low = ground arith; high = ground arith; room_kept = refl },
          inl refl,
        )
        | inr beyond ↦
            let (win', filled, fresh) = fill_window-IsFresh win at inside in
            (
              win',
              rw beyond filled,
              IsFresh-IsReady win' at block (length win.buffer) fresh fits,
              inr fresh,
            )
      ]
