-- ===== src/Adapters/Prolific/Studies.antt =====
-- What Prolific's API sends and the parser does not expect: a null, and a study that nobody took.
use lidenal85_blip.Base.{
  ltb, Bool-cases, if◌then◌else◌, string_eq, length, take, ℕ, zero, suc, ◌<◌, ◌≡◌, refl, ap, ◌↔◌,
  ◌⊎◌, inl, inr, false, some, List, [], ◌∷◌, ◌++◌, arith,
}
use lidenal85_blip.Base.Dict.{lookup}
use lidenal85_blip.Contracts.Value.{
  entries, Integer, Value, Fields, null, dict, Items, natural, int, list,
}
use lidenal85_blip.Contracts.Floats.{Raised, Outcome, Floats, ok, raise, other_error, Outcome-cases}
use lidenal85_blip.Contracts.Survey.{Survey}
use lidenal85_blip.Adapters.Items.{
  is_skipped, raise_on, get, collect, Python, difference, sub_integer, listed, is_true, minus,
  first_items,
}
use lidenal85_blip.Adapters.Prolific.{places, payout_of, duration_of, study, parse_api}

take-append_cons {ℓ} :
    {A : Type ℓ} (n : ℕ) (before : List A) (a : A) (after : List A)
    → length before < n
    → (rest : List A) × (take n (before ++ a ∷ after) ≡ before ++ a ∷ rest)
take-append_cons zero before a after short = absurd (omega arith)
take-append_cons (suc n) [] a after short = (take n after, refl)
take-append_cons (suc n) (b ∷ before) a after short =
    let (rest, same) = take-append_cons n before a after (omega arith) in (rest, ap (◌∷◌ b) same)

module _ (N : Floats) (py : Python N) where
  open N use {Float}
  open py use {text_of}

  -- an item whose exception is not caught is fatal wherever it stands
  collect_raises :
      (parse : Value Float → Outcome (Survey Float)) (before after : List (Value Float))
      (s : Value Float) (e : Raised)
      → parse s ≡ raise e
      → is_skipped e.class_of ≡ false
      → (e' : Raised) × (collect N py parse (before ++ s ∷ after) ≡ raise e')
  unfolding collect
  collect_raises parse [] after s e raises fatal = (e, ground arith)
  collect_raises parse (b ∷ before) after s e raises fatal =
      let (e', later) = collect_raises parse before after s e raises fatal in
      elim (Outcome-cases (parse b)) [
        | inl (a, read) ↦ (e', ground arith)
        | inr (first, stops) ↦ elim (Bool-cases (is_skipped first.class_of)) [
          | inl skipped ↦ (e', ground arith)
          | inr not_skipped ↦ (first, ground arith)
        ]
      ]

  study_raises :
      (fields : Fields Float) (payout : Float) (duration : Integer) (places_left : Value Float)
      → payout_of N py (dict fields) ≡ ok payout
      → duration_of N py (dict fields) ≡ ok duration
      → places N py (dict fields) ≡ ok places_left
      → lookup "filters" (entries fields) ≡ some null
      → (e : Raised) × (study N py (dict fields) ≡ raise e) × (is_skipped e.class_of ≡ false)
  unfolding study get raise_on
  study_raises fields payout duration places_left hp hd hl hf =
      (record { class_of = other_error; text = text_of other_error null }, ground arith, refl)

  -- A study whose "filters" are null, and of which all before can be read, makes `_parse_api`
  -- raise when it is among the first twenty, whatever the others are: all studies of the answer
  -- are lost.
  pub null_filters_lose_all :
      (items : Items Float) (before after : List (Value Float)) (fields : Fields Float)
      (payout : Float) (duration : Integer) (places_left : Value Float) (payload : Fields Float)
      → payout_of N py (dict fields) ≡ ok payout
      → duration_of N py (dict fields) ≡ ok duration
      → places N py (dict fields) ≡ ok places_left
      → lookup "filters" (entries fields) ≡ some null
      → lookup "results" (entries payload) ≡ some (list items)
      → listed items ≡ before ++ dict fields ∷ after
      → length before < 20
      → (e : Raised) × (parse_api N py (dict payload) ≡ raise e)
  unfolding parse_api get first_items
  null_filters_lose_all items before after fields payout duration places_left payload hp hd hl hf h
        all short =
      let (e, raises, fatal) = study_raises fields payout duration places_left hp hd hl hf in
      let (rest, same) = take-append_cons 20 before (dict fields) after short in
      let (e', lost) = collect_raises (study N py) before rest (dict fields) e raises fatal in
      (e', rw (h, all, same, lost) refl)

  -- `a and b`, on two numbers
  places_value :
      (fields : Fields Float) (taken total : ℕ)
      → lookup "places_taken" (entries fields) ≡ some (int (natural taken))
      → lookup "total_available_places" (entries fields) ≡ some (int (natural total))
      → places N py (dict fields)
        ≡ ok (int (if ltb 0 taken then difference total taken else natural 0))
  unfolding places get is_true minus sub_integer
  places_value fields taken total ht hn = ground arith

  -- The places of a study that gives two numbers are those that are left exactly when someone
  -- took one, or when it has none: else a study that is wholly free is said to have 0.
  pub places_lem :
      (fields : Fields Float) (taken total : ℕ)
      → lookup "places_taken" (entries fields) ≡ some (int (natural taken))
      → lookup "total_available_places" (entries fields) ≡ some (int (natural total))
      → (places N py (dict fields) ≡ ok (int (difference total taken)))
        ↔ ((0 < taken) ⊎ (total ≡ 0))
  unfolding difference
  places_lem fields taken total ht hn =
      let value = places_value fields taken total ht hn in
      (λ left. ground (arith, value), λ some_taken. ground (arith, value))
