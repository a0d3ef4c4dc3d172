-- ===== src/Nfs/Rpc/Records.antt =====
-- A record comes whole however it is cut in fragments, and one that is too long is refused.
use rail.Prelude.{
  ℕ, zero, suc, ◌+◌, ◌/◌, ◌%◌, ◌^◌, ◌≤◌, ◌<◌, ◌≡◌, refl, ap, ◌∙◌, true, false, not, Bool-cases, inl,
  inr, List, [], ◌∷◌, ◌++◌, length, All, ltb, ◌==◌, if◌then◌else◌, append-nil, append_assoc,
  length-append, take-append, drop-append, arith,
}
use rail.Result.{Result, ok, fail_message, ◌>>=◌}
use rail.Proto.Bytes.{Bytes}
use rail.Io.Stream.{read_exact}
use rail.Io.Stream.Reading.{Delivers, read_exact-take}
use rail.Nfs.Xdr.{be_bytes}
use rail.Nfs.Xdr.RoundTrip.{of_be_bytes-be_bytes}
use rail.Nfs.Rpc.{max_record, last_fragment, receive_fragment, receive_fragments, receive_record}

-- A record cut in fragments: those before the last, and the last.
abbrev pub cut : List Bytes → Bytes → Bytes
cut [] last = be_bytes (length last + last_fragment) ++ last
cut (f ∷ front) last = be_bytes (length f) ++ (f ++ cut front last)

abbrev pub whole : List Bytes → Bytes → Bytes
whole [] last = last
whole (f ∷ front) last = f ++ whole front last

-- A fragment's length fits in the marker.
abbrev pub HasMarker : Bytes → Type 0
HasMarker f = length f < last_fragment

pub read-four :
    (gives : ℕ → Bytes → Result ℕ) (v : ℕ) (rest : Bytes)
    → Delivers gives
    → read_exact gives 4 (be_bytes v ++ rest) ≡ ok (be_bytes v, rest)
unfolding be_bytes
read-four gives v rest law = read_exact-take gives 4 (be_bytes v ++ rest) law (omega arith)

length-be_bytes : (v : ℕ) → length (be_bytes v) ≡ 4
unfolding be_bytes
length-be_bytes v = refl

cut-first :
    (f : Bytes) (front : List Bytes) (last rest : Bytes)
    → cut (f ∷ front) last ++ rest ≡ be_bytes (length f) ++ (f ++ (cut front last ++ rest))
cut-first f front last rest =
    append_assoc (be_bytes (length f)) (f ++ cut front last) rest
    ∙ ap (λ t. be_bytes (length f) ++ t) (append_assoc f (cut front last) rest)

receive_fragment-whole :
    (gives : ℕ → Bytes → Result ℕ) (header : ℕ) (before f rest : Bytes)
    → Delivers gives
    → header % last_fragment ≡ length f
    → length before + length f ≤ max_record
    → receive_fragment gives header before (f ++ rest) ≡ ok (before ++ f, rest)
unfolding receive_fragment
receive_fragment-whole gives header before [] rest law size room =
    let inside : ltb max_record (length before + 0) ≡ false = ground (arith, room) in
    rw (size, inside, append-nil) refl
receive_fragment-whole gives header before (b ∷ f) rest law size room =
    let inside : ltb max_record (length before + length (b ∷ f)) ≡ false = ground (arith, room) in
    let got : read_exact gives (length (b ∷ f)) ((b ∷ f) ++ rest) ≡ ok (b ∷ f, rest) =
      read_exact-take gives (length (b ∷ f)) ((b ∷ f) ++ rest) law
        (omega (arith, length-append f rest))
      ∙ rw (take-append f rest, drop-append f rest) refl in
    let some_bytes : ltb 0 (length (b ∷ f)) ≡ true = ground arith in
    rw (size, inside, some_bytes, got, ◌>>=◌) refl

receive_fragment-over :
    (gives : ℕ → Bytes → Result ℕ) (header : ℕ) (before f rest : Bytes)
    → header % last_fragment ≡ length f
    → max_record < length before + length f
    → receive_fragment gives header before (f ++ rest) ≡ fail_message "rpc record too large"
unfolding receive_fragment
receive_fragment-over gives header before f rest size over =
    let past : ltb max_record (length before + length f) ≡ true = ground (arith, over) in
    rw (size, past) refl

-- A round that gets its fragment, and one that does not.
receive-round :
    (gives : ℕ → Bytes → Result ℕ) (fuel header : ℕ) (before tail now rest : Bytes)
    → Delivers gives
    → header < 2 ^ 32
    → receive_fragment gives header before tail ≡ ok (now, rest)
    → receive_fragments gives (suc fuel) before (be_bytes header ++ tail) ≡ (
        if not (header / last_fragment % 2 == 0)
        then ok (now, rest)
        else receive_fragments gives fuel now rest)
unfolding receive_fragments
receive-round gives fuel header before tail now rest law word got =
    rw (read-four gives header tail law, ◌>>=◌, of_be_bytes-be_bytes header word, got, ◌>>=◌) refl

receive-refused :
    (gives : ℕ → Bytes → Result ℕ) (fuel header : ℕ) (before tail : Bytes)
    → Delivers gives
    → header < 2 ^ 32
    → receive_fragment gives header before tail ≡ fail_message "rpc record too large"
    → receive_fragments gives (suc fuel) before (be_bytes header ++ tail)
      ≡ fail_message "rpc record too large"
unfolding receive_fragments
receive-refused gives fuel header before tail law word refused =
    rw (read-four gives header tail law, ◌>>=◌, of_be_bytes-be_bytes header word, refused, ◌>>=◌)
      refl

receive_fragments-cut :
    (gives : ℕ → Bytes → Result ℕ) (fuel : ℕ) (before : Bytes) (front : List Bytes)
    (last rest : Bytes)
    → Delivers gives
    → length before + length (whole front last) ≤ max_record
    → length front < fuel
    → receive_fragments gives fuel before (cut front last ++ rest)
      ≡ ok (before ++ whole front last, rest)
receive_fragments-cut gives zero before front last rest law room enough = absurd (omega arith)
receive_fragments-cut gives (suc fuel) before [] last rest law room enough =
    let marked : (not ((length last + last_fragment) / last_fragment % 2 == 0)) ≡ true =
      ground (arith, room) in
    let got : receive_fragment gives (length last + last_fragment) before (last ++ rest)
        ≡ ok (before ++ last, rest) =
      receive_fragment-whole gives (length last + last_fragment) before last rest law
        (omega (arith, room)) room in
    ap (receive_fragments gives (suc fuel) before)
      (append_assoc (be_bytes (length last + last_fragment)) last rest)
    ∙ receive-round gives fuel (length last + last_fragment) before (last ++ rest) (before ++ last)
        rest law (omega (arith, room)) got
    ∙ rw marked refl
receive_fragments-cut gives (suc fuel) before (f ∷ front) last rest law room enough =
    let long : length (whole (f ∷ front) last) ≡ length f + length (whole front last) =
      length-append f (whole front last) in
    let unmarked : (not (length f / last_fragment % 2 == 0)) ≡ false = ground (arith, room, long) in
    let got : receive_fragment gives (length f) before (f ++ (cut front last ++ rest))
        ≡ ok (before ++ f, cut front last ++ rest) =
      receive_fragment-whole gives (length f) before f (cut front last ++ rest) law
        (omega (arith, room, long)) (omega (arith, room, long)) in
    ap (receive_fragments gives (suc fuel) before) (cut-first f front last rest)
    ∙ receive-round gives fuel (length f) before (f ++ (cut front last ++ rest)) (before ++ f)
        (cut front last ++ rest) law (omega (arith, room, long)) got
    ∙ rw unmarked refl
    ∙ receive_fragments-cut gives fuel (before ++ f) front last rest law
        (omega (arith, room, long, length-append before f)) (omega (arith, enough))
    ∙ ap (λ b. ok (b, rest)) (append_assoc before f (whole front last))

fuel-cut :
    (front : List Bytes) (last rest : Bytes) → length front < suc (length (cut front last ++ rest))
fuel-cut [] last rest = omega arith
fuel-cut (f ∷ front) last rest = omega (
  arith,
  ap length (cut-first f front last rest),
  length-append (be_bytes (length f)) (f ++ (cut front last ++ rest)),
  length-be_bytes (length f),
  length-append f (cut front last ++ rest),
  fuel-cut front last rest,
)

-- However a record of no more than kMaxRecord bytes is cut in fragments, and however few bytes each
-- read(2) moves, receiveRecord gives the whole of it and leaves what follows.
pub receive_record-cut :
    (gives : ℕ → Bytes → Result ℕ) (front : List Bytes) (last rest : Bytes)
    → Delivers gives
    → length (whole front last) ≤ max_record
    → receive_record gives (cut front last ++ rest) ≡ ok (whole front last, rest)
unfolding receive_record
receive_record-cut gives front last rest law room =
    receive_fragments-cut gives (suc (length (cut front last ++ rest))) [] front last rest law
      (omega (arith, room)) (fuel-cut front last rest)

receive_fragments-over :
    (gives : ℕ → Bytes → Result ℕ) (fuel : ℕ) (before : Bytes) (front : List Bytes)
    (last rest : Bytes)
    → Delivers gives
    → All HasMarker front
    → HasMarker last
    → max_record < length before + length (whole front last)
    → length front < fuel
    → receive_fragments gives fuel before (cut front last ++ rest)
      ≡ fail_message "rpc record too large"
receive_fragments-over gives zero before front last rest law all short over enough =
    absurd (omega arith)
receive_fragments-over gives (suc fuel) before [] last rest law all short over enough =
    ap (receive_fragments gives (suc fuel) before)
      (append_assoc (be_bytes (length last + last_fragment)) last rest)
    ∙ receive-refused gives fuel (length last + last_fragment) before (last ++ rest) law
        (omega (arith, short))
        (receive_fragment-over gives (length last + last_fragment) before last rest
          (omega (arith, short)) over)
receive_fragments-over gives (suc fuel) before (f ∷ front) last rest law all short over enough =
    let long : length (whole (f ∷ front) last) ≡ length f + length (whole front last) =
      length-append f (whole front last) in
    let tail = cut front last ++ rest in
    let fits_f : length f < last_fragment = all.0 in
    let word : length f < 2 ^ 32 = omega (arith, fits_f) in
    let size : length f % last_fragment ≡ length f = omega (arith, fits_f) in
    ap (receive_fragments gives (suc fuel) before) (cut-first f front last rest)
    ∙ elim (Bool-cases (ltb max_record (length before + length f))) [
      | inl past ↦
          receive-refused gives fuel (length f) before (f ++ tail) law word
            (receive_fragment-over gives (length f) before f tail size (ground (arith, past)))
      | inr inside ↦
          let unmarked : (not (length f / last_fragment % 2 == 0)) ≡ false =
            ground (arith, fits_f) in
          let got : receive_fragment gives (length f) before (f ++ tail) ≡ ok (before ++ f, tail) =
            receive_fragment-whole gives (length f) before f tail law size
              (ground (arith, inside)) in
          receive-round gives fuel (length f) before (f ++ tail) (before ++ f) tail law word got
          ∙ rw unmarked refl
          ∙ receive_fragments-over gives fuel (before ++ f) front last rest law all.1 short
              (omega (arith, over, long, length-append before f)) (omega (arith, enough))
    ]

-- A record of more than kMaxRecord bytes is refused, however it is cut in fragments whose lengths
-- fit in their markers.
pub receive_record-over :
    (gives : ℕ → Bytes → Result ℕ) (front : List Bytes) (last rest : Bytes)
    → Delivers gives
    → All HasMarker front
    → HasMarker last
    → max_record < length (whole front last)
    → receive_record gives (cut front last ++ rest) ≡ fail_message "rpc record too large"
unfolding receive_record
receive_record-over gives front last rest law all short over =
    receive_fragments-over gives (suc (length (cut front last ++ rest))) [] front last rest law all
      short (omega (arith, over)) (fuel-cut front last rest)
