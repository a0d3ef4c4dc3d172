-- ===== src/Pages/Filling.antt =====
-- fill reads pages ahead and loses none of what is to be sent.
use rail.Prelude.{
  ℕ, zero, suc, ◌+◌, ◌-◌, ◌%◌, ◌^◌, ◌≤◌, ◌<◌, ◌≡◌, ◌⊎◌, refl, sym, ap, ◌∙◌, ◌&&◌, not, Bool-cases,
  inl, inr, List, [], ◌∷◌, ◌++◌, length, min, ltb, append_assoc, length-append, arith,
}
use rail.Result.{Result, Error, ok, err}
use rail.Pages.{tag_of, Void}
use rail.Pages.Cutting.{pages, pages-more}
use rail.Pages.Sender.{
  Fabric, Reading, PageSender, push_reading, fill_pooled, fill_one, unless_failed, fill_loop,
}

-- Where the pages start that are read and not sent, and those that are neither.
abbrev pub keys_of : List Reading → List ℕ
keys_of [] = []
keys_of (r ∷ rest) = r.key ∷ keys_of rest

abbrev pub starts : List (ℕ × ℕ) → List ℕ
starts [] = []
starts ((at, size) ∷ rest) = at ∷ starts rest

abbrev pub tags : ℕ → List ℕ → List ℕ
tags base [] = []
tags base (key ∷ rest) = tag_of base key ∷ tags base rest

abbrev pub todo : Fabric → PageSender → ℕ → ℕ → List ℕ
todo f s cursor end = keys_of s.prefetch ++ starts (pages f.page_bytes cursor end)

keys_of-append : (xs ys : List Reading) → keys_of (xs ++ ys) ≡ keys_of xs ++ keys_of ys
keys_of-append [] ys = refl
keys_of-append (r ∷ xs) ys = ap (λ t. r.key ∷ t) (keys_of-append xs ys)

pub starts-append : (xs ys : List (ℕ × ℕ)) → starts (xs ++ ys) ≡ starts xs ++ starts ys
starts-append [] ys = refl
starts-append (p ∷ xs) ys = ap (λ t. p.0 ∷ t) (starts-append xs ys)

-- What fill leaves as it was, and what is to be sent.
pub record IsFilled (f : Fabric) (s s' : PageSender) (cursor cursor' end : ℕ) : Type 0 where
  pub todo_same : todo f s' cursor' end ≡ todo f s cursor end
  pub sent_same : s'.sent ≡ s.sent
  pub unsent_same : s'.left_unsent ≡ s.left_unsent
  pub base_same : s'.tag_base ≡ s.tag_base
  pub geometry_same : s'.geometry ≡ s.geometry
  pub more : length s.prefetch ≤ length s'.prefetch

todo-push :
    (f : Fabric) (s : PageSender) (r : Reading) (cursor end : ℕ)
    → 0 < f.page_bytes
    → cursor < end
    → r.key ≡ cursor
    → keys_of (s.prefetch ++ (r ∷ []))
        ++ starts (pages f.page_bytes (cursor + min f.page_bytes (end - cursor)) end)
      ≡ todo f s cursor end
todo-push f s r cursor end pos left at =
    rw (keys_of-append s.prefetch (r ∷ []), at, pages-more f.page_bytes cursor end pos left)
      (append_assoc (keys_of s.prefetch) (cursor ∷ [])
        (starts (pages f.page_bytes (cursor + min f.page_bytes (end - cursor)) end)))

pushed-IsFilled :
    (f : Fabric) (s s0 : PageSender) (r : Reading) (cursor end : ℕ)
    → 0 < f.page_bytes
    → cursor < end
    → r.key ≡ cursor
    → s0.prefetch ≡ s.prefetch
    → s0.sent ≡ s.sent
    → s0.left_unsent ≡ s.left_unsent
    → s0.tag_base ≡ s.tag_base
    → s0.geometry ≡ s.geometry
    → IsFilled f s (push_reading s0 r) cursor (cursor + min f.page_bytes (end - cursor)) end
      × (length s.prefetch < length (push_reading s0 r).prefetch)
pushed-IsFilled f s s0 r cursor end pos left at queue sent unsent base geometry =
    let longer : length s.prefetch < length (s0.prefetch ++ (r ∷ [])) =
      omega (arith, length-append s0.prefetch (r ∷ []), ap length queue) in
    (
      record {
        todo_same =
            todo-push f s0 r cursor end pos left at
            ∙ ap (λ q. keys_of q ++ starts (pages f.page_bytes cursor end)) queue;
        sent_same = sent;
        unsent_same = unsent;
        base_same = base;
        geometry_same = geometry;
        more = omega (arith, longer);
      },
      longer,
    )

-- One round of fill that does not fail adds a page.
fill_one-IsFilled :
    (f : Fabric) (s : PageSender) (cursor end : ℕ) (u : Void)
    → 0 < f.page_bytes
    → f.page_bytes < 2 ^ 32
    → cursor < end
    → (fill_one f s cursor end).2 ≡ ok u
    → IsFilled f s ((fill_one f s cursor end).0) cursor ((fill_one f s cursor end).1) end
      × (length s.prefetch < length (fill_one f s cursor end).0.prefetch)
unfolding fill_one fill_pooled
fill_one-IsFilled f s cursor end u pos word left done =
    let whole : min f.page_bytes (end - cursor) % 2 ^ 32 ≡ min f.page_bytes (end - cursor) =
      omega (arith, word) in
    elim (Bool-cases (not s.flip_one_bit && f.has_own cursor (min f.page_bytes (end - cursor)))) [
      | inl own ↦ rw own (pushed-IsFilled f s s _ cursor end pos left refl refl refl refl refl refl)
      | inr pooled ↦ elim (Bool-cases (f.acquire s.pooled)) [
        | inl got ↦
            rw (pooled, got, whole)
              (pushed-IsFilled f s _ _ cursor end pos left refl refl refl refl refl refl)
        | inr refused ↦ absurd (ground (arith, rw (pooled, refused) at done))
      ]
    ]

IsFilled-refl : (f : Fabric) (s : PageSender) (cursor end : ℕ) → IsFilled f s s cursor cursor end
IsFilled-refl f s cursor end = record {
  todo_same = refl;
  sent_same = refl;
  unsent_same = refl;
  base_same = refl;
  geometry_same = refl;
  more = omega arith;
}

IsFilled-trans :
    (f : Fabric) (s t u : PageSender) (a b c end : ℕ)
    → IsFilled f s t a b end
    → IsFilled f t u b c end
    → IsFilled f s u a c end
IsFilled-trans f s t u a b c end first then_ = record {
  todo_same = then_.todo_same ∙ first.todo_same;
  sent_same = then_.sent_same ∙ first.sent_same;
  unsent_same = then_.unsent_same ∙ first.unsent_same;
  base_same = then_.base_same ∙ first.base_same;
  geometry_same = then_.geometry_same ∙ first.geometry_same;
  more = omega (arith, first.more, then_.more);
}

pub Result-cases : (r : Result Void) → ((u : Void) × (r ≡ ok u)) ⊎ ((e : Error) × (r ≡ err e))
Result-cases (ok u) = inl (u, refl)
Result-cases (err e) = inr (e, refl)

unless_failed-ok :
    (one rest : PageSender × ℕ × Result Void) (u : Void)
    → one.2 ≡ ok u
    → unless_failed one rest ≡ rest
unless_failed-ok (s, cursor, ok v) rest u e = refl
unless_failed-ok (s, cursor, err x) rest u e = absurd (ground (arith, e))

unless_failed-err :
    (one rest : PageSender × ℕ × Result Void) (x : Error) (u : Void)
    → one.2 ≡ err x
    → (unless_failed one rest).2 ≡ ok u
    → ⊥
unless_failed-err (s, cursor, ok v) rest x u e h = absurd (ground (arith, e))
unless_failed-err (s, cursor, err y) rest x u e h = absurd (ground (arith, h))

pub fill_loop-IsFilled :
    (f : Fabric) (fuel : ℕ) (s : PageSender) (cursor end : ℕ) (u : Void)
    → 0 < f.page_bytes
    → f.page_bytes < 2 ^ 32
    → (fill_loop f fuel s cursor end).2 ≡ ok u
    → IsFilled f s
        ((fill_loop f fuel s cursor end).0)
        cursor
        ((fill_loop f fuel s cursor end).1)
        end
unfolding fill_loop
fill_loop-IsFilled f zero s cursor end u pos word done = IsFilled-refl f s cursor end
fill_loop-IsFilled f (suc fuel) s cursor end u pos word done =
    elim (Bool-cases (ltb (length s.prefetch) s.geometry.read_ahead && ltb cursor end)) [
      | inr enough ↦ rw enough (IsFilled-refl f s cursor end)
      | inl room ↦
          let one = fill_one f s cursor end in
          let rest = fill_loop f fuel one.0 one.1 end in
          elim (Result-cases one.2) [
            | inr (x, failed) ↦ absurd (unless_failed-err one rest x u failed (rw room at done))
            | inl (v, went) ↦
                let same : unless_failed one rest ≡ rest = unless_failed-ok one rest v went in
                let first =
                  fill_one-IsFilled f s cursor end v pos word (ground (arith, room)) went in
                rw (room, same)
                  (IsFilled-trans f s one.0 rest.0 cursor one.1 rest.1 end first.0 (
                    fill_loop-IsFilled f fuel one.0 one.1 end u pos word
                      (ap (λ r. r.2) (sym same) ∙ rw room at done)))
          ]
    ]

-- Where a page is left to read, fill leaves Prefetch with a page.
pub fill_loop-some :
    (f : Fabric) (fuel : ℕ) (s : PageSender) (cursor end : ℕ) (u : Void)
    → 0 < f.page_bytes
    → f.page_bytes < 2 ^ 32
    → 0 < fuel
    → fuel ≡ s.geometry.read_ahead
    → cursor < end
    → (fill_loop f fuel s cursor end).2 ≡ ok u
    → 0 < length (fill_loop f fuel s cursor end).0.prefetch
unfolding fill_loop
fill_loop-some f zero s cursor end u pos word ahead same left done = absurd (omega arith)
fill_loop-some f (suc fuel) s cursor end u pos word ahead depth left done =
    elim (Bool-cases (ltb (length s.prefetch) s.geometry.read_ahead && ltb cursor end)) [
      | inr enough ↦ rw enough (ground (arith, enough, depth, left))
      | inl room ↦
          let one = fill_one f s cursor end in
          let rest = fill_loop f fuel one.0 one.1 end in
          elim (Result-cases one.2) [
            | inr (x, failed) ↦ absurd (unless_failed-err one rest x u failed (rw room at done))
            | inl (v, went) ↦
                let same : unless_failed one rest ≡ rest = unless_failed-ok one rest v went in
                let first = fill_one-IsFilled f s cursor end v pos word left went in
                let later =
                  fill_loop-IsFilled f fuel one.0 one.1 end u pos word
                    (ap (λ r. r.2) (sym same) ∙ rw room at done) in
                rw (room, same) (omega (arith, first.1, later.more))
          ]
    ]
