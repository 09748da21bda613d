-- ===== src/Runtime/Wrapped.antt =====
-- adapters/wrapped.py: the wrapper that lets an adapter's items through the validator, behind the
-- runtime's breaker. What the adapter's own `fetch` does, return items or raise, is an argument.
use lidenal85_blip.Base.{Bool-cases, sym, ap, ◌∙◌, inl, inr, ◌++◌, append_assoc, append-nil}
use lidenal85_blip.Runtime.DeadLetterQueue.{
  push, has_required, validate_dict, not_dict, missing_fields, invalid_payload,
}
use lidenal85_blip.Runtime.CircuitBreaker.{closed}
use lidenal85_blip.Base.{
  if◌then◌else◌, string_eq, ℕ, ◌≡◌, refl, Bool, true, false, Option, none, some, List, [], ◌∷◌,
  arith,
}
use lidenal85_blip.Base.Dict.{lookup, has}
use mathlib.Core.Bool.{false≢true}
use lidenal85_blip.Contracts.Value.{Value, dict, end, entries, field}
use lidenal85_blip.Runtime.DeadLetterQueue.{
  is_dict, validate, is_envelope, RejectedItem, validate_lem,
}
use lidenal85_blip.Runtime.CircuitBreaker.{CircuitBreaker, allow, success, failure}

module _ {F : Type 0} where
  -- `if v:` of the validator's answer: None and the empty dict are false
  abbrev truthy : Option (Value F) → Bool
  truthy none = false
  truthy (some (dict end)) = false
  truthy (some _) = true

  keep : Option (Value F) → List (Value F) → List (Value F)
  keep none vs = vs
  keep (some v) vs = if truthy (some v) then v ∷ vs else vs

  -- the loop over the raw items; the queue is the validator's
  unfoldable pub validate_items :
      List (Value F) → List (RejectedItem F) → List (RejectedItem F) × List (Value F)
  unfolding keep
  validate_items [] dlq = (dlq, [])
  validate_items (item ∷ items) dlq =
      let (dlq', v) = validate item dlq in
      let (dlq'', vs) = validate_items items dlq' in
      let skipped = validate_items items dlq in if is_dict item then (dlq'', keep v vs) else skipped

  fetched :
      Option (List (Value F))
      → ℕ
      → CircuitBreaker
      → List (RejectedItem F)
      → CircuitBreaker × List (RejectedItem F) × List (Value F)
  fetched none later breaker dlq = (failure later breaker, dlq, [])
  fetched (some items) later breaker dlq =
      let (dlq', vs) = validate_items items dlq in (success breaker, dlq', vs)

  -- `raw_items`: none if `adapter.fetch` raises. The clock is read by `allow` and by `failure`.
  unfoldable pub fetch :
      Option (List (Value F))
      → ℕ
      → ℕ
      → CircuitBreaker
      → List (RejectedItem F)
      → CircuitBreaker × List (RejectedItem F) × List (Value F)
  unfolding fetched
  fetch raw_items now later breaker dlq =
      let (breaker', allowed) = allow now breaker in
      if allowed then fetched raw_items later breaker' dlq else (breaker', dlq, [])

  -- the items that the validator accepts
  abbrev pub envelopes : List (Value F) → List (Value F)
  envelopes [] = []
  envelopes (v ∷ vs) = let rest = envelopes vs in if is_envelope v then v ∷ rest else rest

  -- the entry of a dict that the validator does not accept, and the entries of all of them
  abbrev defect : Value F → RejectedItem F
  defect (dict fs) =
      if has_required (entries fs) then invalid_payload (dict fs) else missing_fields (dict fs)
  defect v = not_dict v

  abbrev pub refusals : List (Value F) → List (RejectedItem F)
  refusals [] = []
  refusals (v ∷ vs) =
      let rest = refusals vs in
      if is_dict v then (if is_envelope v then rest else defect v ∷ rest) else rest

  validate-defect :
      (v : Value F) (dlq : List (RejectedItem F))
      → is_dict v ≡ true
      → (validate v dlq).0 ≡ (if is_envelope v then dlq else dlq ++ defect v ∷ [])
  unfolding validate validate_dict is_envelope push
  validate-defect (dict fs) dlq h = ground arith
  validate-defect _ dlq h = cc

  envelope_truthy :
      (v : Value F) → is_envelope v ≡ true → (is_dict v ≡ true) × (truthy (some v) ≡ true)
  unfolding is_envelope entries has lookup string_eq
  envelope_truthy (dict end) h = absurd (false≢true h)
  envelope_truthy (dict (field k v fs)) h = (refl, refl)
  envelope_truthy _ h = cc

  validate_items_kept :
      (items : List (Value F)) (dlq : List (RejectedItem F))
      → (validate_items items dlq).1 ≡ envelopes items
  unfolding validate_items
  validate_items_kept [] dlq = refl
  validate_items_kept (item ∷ items) dlq = ground (
    arith,
    envelope_truthy item,
    validate_lem item dlq,
    validate_items_kept items dlq,
    validate_items_kept items (validate item dlq).0,
  )

  validate_items_refused :
      (items : List (Value F)) (dlq : List (RejectedItem F))
      → (validate_items items dlq).0 ≡ dlq ++ refusals items
  unfolding validate_items
  validate_items_refused [] dlq = sym (append-nil dlq)
  validate_items_refused (item ∷ items) dlq = elim (Bool-cases (is_dict item)) [
    | inr other ↦ rw other (validate_items_refused items dlq)
    | inl is ↦ rw is (
        validate_items_refused items (validate item dlq).0
        ∙ ap (λ q. q ++ refusals items) (validate-defect item dlq is)
        ∙ ground (arith, append_assoc dlq (defect item ∷ []) (refusals items)))
  ]

  -- When the breaker lets the fetch through and the adapter returns items, the result is exactly
  -- the items that the validator accepts, in order; each other dict adds one entry to the end of
  -- the queue, in order, which holds the dict itself under what it lacks: a required key, or else
  -- a payload that is a dict; items that are no dicts leave no trace. The breaker is closed, with
  -- no failure counted.
  pub fetch_validates :
      (items : List (Value F)) (now later : ℕ) (b : CircuitBreaker) (dlq : List (RejectedItem F))
      → (allow now b).1 ≡ true
      → fetch (some items) now later b dlq
        ≡ (record b { failures = 0; state = closed }, dlq ++ refusals items, envelopes items)
  unfolding fetch success allow
  fetch_validates items now later b dlq h =
      ground (arith, validate_items_kept items dlq, validate_items_refused items dlq)

  -- When the breaker refuses, or the adapter raises, the result is empty and the queue unchanged;
  -- the breaker counts the failure of the adapter, and a refusal leaves it alone.
  pub fetch_fails :
      (items : Option (List (Value F))) (now later : ℕ) (b : CircuitBreaker)
      (dlq : List (RejectedItem F))
      → ((allow now b).1 ≡ false → fetch items now later b dlq ≡ (b, dlq, []))
        × ((allow now b).1 ≡ true
            → fetch none now later b dlq ≡ (failure later (allow now b).0, dlq, []))
  unfolding fetch allow
  fetch_fails items now later b dlq = ground arith
