-- ===== src/Adapters/Items.antt =====
-- What the adapters share in their reading of a platform's JSON: Python's `get`, slices and tests
-- on values, and the loop that keeps the items of which a survey can be made.
pub mod Kept
use lidenal85_blip.Base.{
  ltb, leb, if◌then◌else◌, ◌==◌, string_eq, take, ℕ, ◌+◌, ◌-◌, String, Bool, true, false, not,
  Option, none, some, List, [], ◌∷◌,
}
use lidenal85_blip.Base.Dict.{lookup}
use lidenal85_blip.Contracts.Value.{
  entries, Integer, Value, Items, natural, negative, null, bool, int, float, str, datetime, list,
  dict, nil, cons, end, field,
}
use lidenal85_blip.Contracts.Floats.{
  ◌>>=◌, ExceptionClass, Outcome, Floats, value_error, type_error, validation_error, other_error,
  ok, raise,
}
use lidenal85_blip.Contracts.Survey.{Survey}
use lidenal85_blip.Contracts.Pydantic.{Pydantic}

-- pydantic's validation, Python's `str()`, `x == 0.0`, the texts of exceptions, and the time
-- stamp in seconds that `_ts` reads.
pub record Python (N : Floats) : Type 0 where
  pub construct : Pydantic N
  pub str_of : Value N.Float → String
  pub is_zero : N.Float → Bool
  pub text_of : ExceptionClass → Value N.Float → String
  pub timestamp : String

-- `except (ValueError, TypeError)`; a ValidationError is a ValueError, and neither an
-- AttributeError nor an OverflowError is one.
abbrev pub is_skipped : ExceptionClass → Bool
is_skipped value_error = true
is_skipped type_error = true
is_skipped validation_error = true
is_skipped _ = false

-- `a - b` of two integers; `negative n` is -(n + 1)
unfoldable pub difference : ℕ → ℕ → Integer
difference a b = if leb b a then natural (a - b) else negative (b - a - 1)

unfoldable pub sub_integer : Integer → Integer → Integer
unfolding difference
sub_integer (natural a) (natural b) = difference a b
sub_integer (natural a) (negative b) = natural (a + b + 1)
sub_integer (negative a) (natural b) = negative (a + b)
sub_integer (negative a) (negative b) = difference b a

abbrev pub listed : {F : Type 0} → Items F → List (Value F)
listed nil = []
listed (cons v vs) = v ∷ listed vs

module _ (N : Floats) (py : Python N) where
  open N use {Float, of_integer, sub}
  open py use {is_zero, text_of}

  unfoldable pub raise_on {ℓ} : {A : Type ℓ} → ExceptionClass → Value Float → Outcome A
  raise_on c v = raise (record { class_of = c; text = text_of c v })

  -- `v.get(key, default)`; what is no dict has no `get`
  unfoldable pub get : String → Value Float → Value Float → Outcome (Value Float)
  unfolding raise_on
  get key default (dict fs) = ok (get_found (lookup key (entries fs)))
    where
      get_found : Option (Value Float) → Value Float
      get_found none = default
      get_found (some v) = v
  get key default v = raise_on other_error v

  -- `bool(v)`
  unfoldable pub is_true : Value Float → Bool
  is_true null = false
  is_true (bool b) = b
  is_true (int (natural n)) = ltb 0 n
  is_true (int (negative n)) = true
  is_true (float x) = not (is_zero x)
  is_true (str s) = not (s == "")
  is_true (datetime t) = true
  is_true (list nil) = false
  is_true (list (cons v vs)) = true
  is_true (dict end) = false
  is_true (dict (field k v fs)) = true

  -- `a - b`, for the numbers of JSON; Booleans count as the numbers 0 and 1
  unfoldable pub minus : Value Float → Value Float → Outcome (Value Float)
  unfolding raise_on
  minus a b = go (number a) (number b)
    where
      number : Value Float → Value Float
      number (bool true) = int (natural 1)
      number (bool false) = int (natural 0)
      number v = v

      go : Value Float → Value Float → Outcome (Value Float)
      go (int m) (int n) = ok (int (sub_integer m n))
      go (int m) (float y) = ok (float (sub (of_integer m) y))
      go (float x) (int n) = ok (float (sub x (of_integer n)))
      go (float x) (float y) = ok (float (sub x y))
      go v w = raise_on type_error v

  -- the items of `for s in v[:20]`; a text that is not empty is read by characters, which have no
  -- `get`: the text stands for its first one
  unfoldable pub first_items : ℕ → Value Float → Outcome (List (Value Float))
  unfolding raise_on
  first_items n (list vs) = ok (take n (listed vs))
  first_items n (str s) = ok (if s == "" then [] else str s ∷ [])
  first_items n v = raise_on type_error v

  -- the `for` loop of `_parse_api`, with the `try` in it
  unfoldable pub collect :
      (Value Float → Outcome (Survey Float)) → List (Value Float) → Outcome (List (Survey Float))
  collect parse [] = ok []
  collect parse (s ∷ ss) =
      let rest = collect parse ss in
      elim (parse s) [
        | ok survey ↦ (rest >>= λ surveys. ok (survey ∷ surveys))
        | raise e ↦ if is_skipped e.class_of then rest else raise e
      ]

  -- the `for` loop of `_parse_html` inside its `try`: the first exception ends it, and the
  -- surveys before it stay
  unfoldable pub until_raise :
      (Value Float → Outcome (Survey Float)) → List (Value Float) → List (Survey Float)
  until_raise parse [] = []
  until_raise parse (s ∷ ss) =
      let rest = until_raise parse ss in elim (parse s) [ ok survey ↦ survey ∷ rest | raise e ↦ [] ]
