-- ===== src/Io/Turn/Kept.antt =====
-- What each operation of a turn keeps: the turn is free, or one awaiter has it or is about to.
use rail.Prelude.{
  ℕ, ◌+◌, ◌≡◌, refl, sym, ap, ◌∙◌, Bool, true, false, Bool-cases, inl, inr, List, [], ◌∷◌, ◌++◌,
  length, get_or, ◌==◌, if◌then◌else◌, arith,
}
use rail.Io.Turn.{
  Flags, unset, Turn, put_flags, await_ready, await_suspend, await_resume, give_to, give,
}
use rail.Io.Turn.Queues.{times, times-append}

abbrev pub bit : Bool → ℕ
bit b = if b then 1 else 0

pub record IsOne (t : Turn) (holders : List ℕ) : Type 0 where
  pub free : t.held ≡ false → (t.waiting ≡ []) × (t.ready ≡ []) × (holders ≡ [])
  pub one : t.held ≡ true → length holders + length t.ready ≡ 1
  pub handed : (a : ℕ) → (t.flags a).handed ≡ true → t.ready ≡ a ∷ []
  pub ready :
      (a : ℕ) (rest : List ℕ)
      → t.ready ≡ a ∷ rest
      → ((t.flags a).queued ≡ false) × ((t.flags a).handed ≡ true)
  pub waits : (a : ℕ) → times a t.waiting ≡ bit ((t.flags a).queued)

pub heads : {a b : ℕ} {xs ys : List ℕ} → a ∷ xs ≡ b ∷ ys → a ≡ b
heads {a} e = ap (λ l. get_or l 0 a) e

pub none-cons : {a : ℕ} {xs : List ℕ} → [] ≡ a ∷ xs → ⊥
none-cons {a} {xs} e = absurd (omega (arith, ap length e))

pub IsOne-ext :
    (t : Turn) (holders : List ℕ) (flags : ℕ → Flags)
    → ((a : ℕ) → flags a ≡ t.flags a)
    → IsOne t holders
    → IsOne (record t { flags = flags }) holders
IsOne-ext t holders flags same h = record {
  free = h.free;
  one = h.one;
  handed = λ a e. h.handed a (sym (ap (λ f. f.handed) (same a)) ∙ e);
  ready = λ a rest e. (
    ap (λ f. f.queued) (same a) ∙ (h.ready a rest e).0,
    ap (λ f. f.handed) (same a) ∙ (h.ready a rest e).1,
  );
  waits = λ a. h.waits a ∙ sym (ap (λ f. bit f.queued) (same a));
}

-- Unsetting flags that are not set.
unset_again : (flags : ℕ → Flags) (a b : ℕ) → flags a ≡ unset → put_flags flags a unset b ≡ flags b
unset_again flags a b e = elim (Bool-cases (a == b)) [
  | inl same ↦ let is : a ≡ b = ground (arith, same) in rw same (sym e ∙ ap flags is)
  | inr apart ↦ rw apart refl
]

pub enter-IsOne :
    (t : Turn) (holders : List ℕ) (a : ℕ)
    → IsOne t holders
    → await_ready t ≡ true
    → t.flags a ≡ unset
    → IsOne (await_resume t a) (a ∷ holders)
unfolding await_ready await_resume
enter-IsOne t holders a h now fresh =
    let (no_waiting, no_ready, no_holders) = h.free (ground (arith, now)) in
    let kept =
      IsOne-ext t holders (put_flags t.flags a unset) (λ b. unset_again t.flags a b fresh) h in
    record {
      free = λ e. absurd (ground (arith, e));
      one = λ e. rw (no_ready, no_holders) refl;
      handed = kept.handed;
      ready = kept.ready;
      waits = kept.waits;
    }

pub suspend-IsOne :
    (t : Turn) (holders : List ℕ) (a : ℕ)
    → IsOne t holders
    → await_ready t ≡ false
    → t.flags a ≡ unset
    → IsOne (await_suspend t a) holders
unfolding await_ready await_suspend
suspend-IsOne t holders a h busy fresh = record {
  free = λ e. absurd (ground (arith, e, busy));
  one = h.one;
  handed = handed;
  ready = ready;
  waits = waits;
}
  where
    flags : ℕ → Flags
    flags = put_flags t.flags a (record (t.flags a) { queued = true })

    handed : (b : ℕ) → (flags b).handed ≡ true → t.ready ≡ b ∷ []
    handed b e = elim (Bool-cases (a == b)) [
      | inl same ↦ absurd (ground (arith, sym (ap (λ f. f.handed) fresh) ∙ rw same at e))
      | inr apart ↦ h.handed b (rw apart at e)
    ]

    ready :
        (b : ℕ) (rest : List ℕ)
        → t.ready ≡ b ∷ rest
        → ((flags b).queued ≡ false) × ((flags b).handed ≡ true)
    ready b rest e = elim (Bool-cases (a == b)) [
      | inr apart ↦ rw apart (h.ready b rest e)
      | inl same ↦
          let is : a ≡ b = ground (arith, same) in
          let not_handed : (t.flags b).handed ≡ false =
            ap (λ c. (t.flags c).handed) (sym is) ∙ ap (λ f. f.handed) fresh in
          absurd (ground (arith, not_handed, (h.ready b rest e).1))
    ]

    waits : (b : ℕ) → times b (t.waiting ++ (a ∷ [])) ≡ bit ((flags b).queued)
    waits b = elim (Bool-cases (a == b)) [
      | inr apart ↦ rw apart (
          omega (
            arith,
            times-append b t.waiting (a ∷ []),
            rw apart at (times-append b t.waiting (a ∷ [])),
            h.waits b,
          ))
      | inl same ↦
          let is : a ≡ b = ground (arith, same) in
          let before : times b t.waiting ≡ 0 =
            h.waits b ∙ ap (λ c. bit (t.flags c).queued) (sym is) ∙ ap (λ f. bit f.queued) fresh in
          rw same (omega (arith, rw same at (times-append b t.waiting (a ∷ [])), before))
    ]

-- The turn is in use and nobody has it.
pub record IsGiving (t : Turn) : Type 0 where
  pub used : t.held ≡ true
  pub ready : t.ready ≡ []
  pub handed : (a : ℕ) → (t.flags a).handed ≡ false
  pub waits : (a : ℕ) → times a t.waiting ≡ bit ((t.flags a).queued)

give_to-IsOne :
    (t : Turn) (queue : List ℕ) → IsGiving t → t.waiting ≡ queue → IsOne (give_to t queue) []
unfolding give_to
give_to-IsOne t [] h e = record {
  free = λ f. (e, h.ready, refl);
  one = λ f. absurd (ground (arith, f));
  handed = λ a f. absurd (ground (arith, f, h.handed a));
  ready = λ a rest f. absurd (none-cons (sym h.ready ∙ f));
  waits = h.waits;
}
give_to-IsOne t (next ∷ rest) h e = record {
  free = λ f. absurd (ground (arith, f, h.used));
  one = λ f. rw h.ready refl;
  handed = handed;
  ready = ready;
  waits = waits;
}
  where
    flags : ℕ → Flags
    flags = put_flags t.flags next (record { queued = false; handed = true })

    only : t.ready ++ (next ∷ []) ≡ next ∷ []
    only = rw h.ready refl

    handed : (b : ℕ) → (flags b).handed ≡ true → t.ready ++ (next ∷ []) ≡ b ∷ []
    handed b f = elim (Bool-cases (next == b)) [
      | inl same ↦ let is : next ≡ b = ground (arith, same) in only ∙ ap (λ c. c ∷ []) is
      | inr apart ↦ absurd (ground (arith, h.handed b, rw apart at f))
    ]

    ready :
        (b : ℕ) (later : List ℕ)
        → t.ready ++ (next ∷ []) ≡ b ∷ later
        → ((flags b).queued ≡ false) × ((flags b).handed ≡ true)
    ready b later f =
        let is : next ≡ b = heads (sym only ∙ f) in
        let same : (next == b) ≡ true = ground (arith, is) in (rw same refl, rw same refl)

    waits : (b : ℕ) → times b rest ≡ bit ((flags b).queued)
    waits b =
        let before : times b (next ∷ rest) ≡ bit ((t.flags b).queued) =
          ap (times b) (sym e) ∙ h.waits b in
        elim (Bool-cases (next == b)) [
          | inr apart ↦ rw apart (omega (arith, rw apart at before))
          | inl same ↦ rw same (elim (Bool-cases ((t.flags b).queued)) [
            | inl queued ↦ omega (arith, rw (same, queued) at before)
            | inr idle ↦ absurd (omega (arith, rw (same, idle) at before))
          ])
        ]

pub give-IsOne : (t : Turn) → IsGiving t → IsOne (give t) []
unfolding give
give-IsOne t h = give_to-IsOne t t.waiting h refl
