-- ===== src/Runtime/DeadLetterQueue.antt =====
-- runtime/dlq.py, and runtime/schema_validator.py, which fills it. The entries are kept by what
-- was wrong, with the value; `str(raw)` of a value that is no dict is kept as the value itself.
use lidenal85_blip.Base.{
  if◌then◌else◌, string_eq, length, length-append, take, take_of_length-le, take-length-append, ℕ,
  ◌+◌, String, ◌≡◌, Bool, true, false, not, ◌&&◌, Option, none, some, List, [], ◌∷◌, ◌++◌, arith,
}
use lidenal85_blip.Base.Dict.{Dict, lookup, has}
use lidenal85_blip.Contracts.Value.{entries, Value, Fields, dict}

pub data RejectedItem (F : Type 0) : Type 0 where
  not_dict missing_fields invalid_payload : Value F → RejectedItem F

module _ {F : Type 0} where
  unfoldable pub push : RejectedItem F → List (RejectedItem F) → List (RejectedItem F)
  push item store = store ++ item ∷ []

  unfoldable pub size : List (RejectedItem F) → ℕ
  size store = length store

  unfoldable pub dump : List (RejectedItem F) → List (RejectedItem F)
  dump store = store

  -- `{"source", "schema_version", "payload"}.issubset(set(raw.keys()))`
  unfoldable pub has_required : Dict String (Value F) → Bool
  has_required d = has "source" d && (has "schema_version" d && has "payload" d)

  abbrev pub is_dict : Value F → Bool
  is_dict (dict fs) = true
  is_dict _ = false

  abbrev payload_is_dict : Option (Value F) → Bool
  payload_is_dict none = false
  payload_is_dict (some v) = is_dict v

  unfoldable pub validate_dict :
      Fields F → List (RejectedItem F) → List (RejectedItem F) × Option (Value F)
  unfolding push has_required
  validate_dict fs dlq =
      if not (has_required (entries fs))
      then (push (missing_fields (dict fs)) dlq, none)
      else if not (payload_is_dict (lookup "payload" (entries fs)))
      then (push (invalid_payload (dict fs)) dlq, none)
      else (dlq, some (dict fs))

  unfoldable pub validate :
      Value F → List (RejectedItem F) → List (RejectedItem F) × Option (Value F)
  unfolding push validate_dict
  validate (dict fs) dlq = validate_dict fs dlq
  validate raw dlq = (push (not_dict raw) dlq, none)

  -- What the validator asks of a value.
  unfoldable pub is_envelope : Value F → Bool
  unfolding has_required
  is_envelope (dict fs) =
      has_required (entries fs) && payload_is_dict (lookup "payload" (entries fs))
  is_envelope _ = false

  -- A value is handed back as it is, and adds no entry, when it is a dict with the three required
  -- keys whose payload is a dict; any other value gives None and adds exactly one entry. The
  -- entries before stay as they are.
  pub validate_lem :
      (raw : Value F) (dlq : List (RejectedItem F))
      → ((validate raw dlq).1 ≡ (if is_envelope raw then some raw else none))
        × (length (validate raw dlq).0 ≡ length dlq + (if is_envelope raw then 0 else 1))
        × (take (length dlq) (validate raw dlq).0 ≡ dlq)
  unfolding validate is_envelope
  validate_lem (dict fs) dlq =
      grind
        (arith, length-append, take-length-append, take_of_length-le (length dlq) dlq (omega arith))
  validate_lem _ dlq =
      grind
        (arith, length-append, take-length-append, take_of_length-le (length dlq) dlq (omega arith))
