-- ===== src/Contracts/Pydantic.antt =====
-- pydantic's validation of a `Survey`, a third-party parameter of the model, with the documented
-- behaviour that the program relies on, and Python's `float()` and `int()` of a value.
use lidenal85_blip.Base.{if◌then◌else◌, String, ◌≡◌, Bool, true, false, Option, none, some, [], ◌∷◌}
use lidenal85_blip.Base.Dict.{Dict}
use lidenal85_blip.Contracts.Value.{Integer, Value, natural, bool, int, float, str}
use lidenal85_blip.Contracts.Floats.{
  Floats, ExceptionClass, Outcome, value_error, type_error, overflow_error, ok, raise,
}
use lidenal85_blip.Contracts.Survey.{basic_survey, model_dump, Survey}

-- `Survey(**fields)`; what it raises is a ValidationError
abbrev pub Pydantic : Floats → Type 0
Pydantic N = Dict String (Value N.Float) → Outcome (Survey N.Float)

-- Fields that are left out take their defaults, and the dump of a model builds the model again.
pub record IsLawful (N : Floats) (construct : Pydantic N) : Type 0 where
  pub construct-basic :
      (id title source : String) (payout : N.Float) (duration : Integer)
      → construct (
          ("id", str id)
          ∷ ("title", str title)
          ∷ ("payout", float payout)
          ∷ ("duration_minutes", int duration)
          ∷ ("source", str source)
          ∷ ("schema_version", str "v1")
          ∷ [])
        ≡ ok (basic_survey id title payout duration source)
  pub construct-model_dump : (s : Survey N.Float) → construct (model_dump s) ≡ ok s

module _ (N : Floats) where
  open N use {Float, of_integer, parse_float, parse_int, is_nan, is_infinite, truncate, message}

  unfoldable pub raise_at {ℓ} : {A : Type ℓ} → ExceptionClass → Value Float → Outcome A
  raise_at c v = raise (record { class_of = c; text = message c v })

  or_value_error {ℓ} : {A : Type ℓ} → Value Float → Option A → Outcome A
  or_value_error v none = raise_at value_error v
  or_value_error v (some a) = ok a

  bit : Bool → Integer
  bit true = natural 1
  bit false = natural 0

  -- `float(v)`
  unfoldable pub to_float : Value Float → Outcome Float
  unfolding bit raise_at or_value_error
  to_float (float x) = ok x
  to_float (int n) = ok (of_integer n)
  to_float (bool b) = ok (of_integer (bit b))
  to_float (str s) = or_value_error (str s) (parse_float s)
  to_float v = raise_at type_error v

  truncate_checked : Float → Outcome Integer
  truncate_checked x =
      if is_nan x
      then raise_at value_error (float x)
      else if is_infinite x
      then raise_at overflow_error (float x)
      else ok (truncate x)

  -- `int(v)`
  unfoldable pub to_int : Value Float → Outcome Integer
  unfolding bit truncate_checked raise_at or_value_error
  to_int (int n) = ok n
  to_int (float x) = truncate_checked x
  to_int (bool b) = ok (bit b)
  to_int (str s) = or_value_error (str s) (parse_int s)
  to_int v = raise_at type_error v
