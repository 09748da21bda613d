-- ===== src/Contracts/Floats.antt =====
-- Python's floats, texts and errors, as far as the program uses them: parameters of the model. No
-- law of floating-point arithmetic is assumed but where a theorem names it.
use lidenal85_blip.Base.{ltb, eqb, ℕ, String, ◌≡◌, refl, ◌⊎◌, inl, inr, Bool, true, false, Option}
use lidenal85_blip.Contracts.Value.{Integer, natural, negative, Value}

-- What a call in Python does: return, or raise. An exception is its class and its text.
pub data ExceptionClass : Type 0 where
  value_error type_error overflow_error validation_error runtime_error other_error : ExceptionClass

pub record Raised : Type 0 where
  pub class_of : ExceptionClass
  pub text : String

pub data Outcome {ℓ} (A : Type ℓ) : Type ℓ where
  ok : A → Outcome A
  raise : Raised → Outcome A

pub Outcome-cases {ℓ} :
    {A : Type ℓ} (o : Outcome A) → ((a : A) × (o ≡ ok a)) ⊎ ((e : Raised) × (o ≡ raise e))
Outcome-cases (ok a) = inl (a, refl)
Outcome-cases (raise e) = inr (e, refl)

infixl 5 ◌>>=◌
abbrev pub ◌>>=◌ {ℓ κ} : {A : Type ℓ} {B : Type κ} → Outcome A → (A → Outcome B) → Outcome B
ok a >>= f = f a
raise e >>= f = raise e

pub record Floats : Type 1 where
  pub Float : Type 0
  pub of_integer : Integer → Float
  -- the literal with the given digits, the second of them after the point: `decimal 45 1` is 4.5
  pub decimal : ℕ → ℕ → Float
  pub add : Float → Float → Float
  pub sub : Float → Float → Float
  pub mul : Float → Float → Float
  pub div : Float → Float → Float
  pub le : Float → Float → Bool
  pub lt : Float → Float → Bool
  -- `round(x, 4)`
  pub round4 : Float → Float
  -- `float(s)` of a text; none where it raises a ValueError
  pub parse_float : String → Option Float
  pub parse_int : String → Option Integer
  -- `int(x)` of a float; NaN raises a ValueError, an infinity an OverflowError
  pub is_nan : Float → Bool
  pub is_infinite : Float → Bool
  pub truncate : Float → Integer
  -- the text of the exception, of the given class, that `float(v)` or `int(v)` raises
  pub message : ExceptionClass → Value Float → String
  -- `s.upper()`
  pub upper : String → String

abbrev pub is_positive : Integer → Bool
is_positive (natural n) = ltb 0 n
is_positive (negative n) = false

abbrev pub is_zero : Integer → Bool
is_zero (natural n) = eqb n 0
is_zero (negative n) = false

abbrev pub lt_integer : Integer → Integer → Bool
lt_integer (natural a) (natural b) = ltb a b
lt_integer (natural a) (negative b) = false
lt_integer (negative a) (natural b) = true
lt_integer (negative a) (negative b) = ltb b a
