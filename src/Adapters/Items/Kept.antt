-- ===== src/Adapters/Items/Kept.antt =====
-- Which items the loop of `_parse_api` keeps.
use lidenal85_blip.Base.{
  if◌then◌else◌, length, ◌≤◌, ◌≡◌, refl, Option, none, some, List, [], ◌∷◌, arith,
}
use lidenal85_blip.Contracts.Value.{Value}
use lidenal85_blip.Contracts.Floats.{Raised, Outcome, Floats, ok, raise}
use lidenal85_blip.Contracts.Survey.{Survey}
use lidenal85_blip.Adapters.Items.{is_skipped, collect, Python}

module _ (N : Floats) (py : Python N) where
  open N use {Float}

  -- the surveys of the items that are read without an exception, in order
  abbrev pub kept :
      (Value Float → Outcome (Survey Float)) → List (Value Float) → List (Survey Float)
  kept parse [] = []
  kept parse (s ∷ ss) = elim (parse s) [
    | ok survey ↦ survey ∷ kept parse ss
    | raise e ↦ kept parse ss
  ]

  -- the first exception that the `except` does not take
  abbrev pub first_fatal :
      (Value Float → Outcome (Survey Float)) → List (Value Float) → Option Raised
  first_fatal parse [] = none
  first_fatal parse (s ∷ ss) = elim (parse s) [
    | ok survey ↦ first_fatal parse ss
    | raise e ↦ if is_skipped e.class_of then first_fatal parse ss else some e
  ]

  abbrev pub unless : Option Raised → List (Survey Float) → Outcome (List (Survey Float))
  unless none surveys = ok surveys
  unless (some e) surveys = raise e

  pub collect-kept :
      (parse : Value Float → Outcome (Survey Float)) (ss : List (Value Float))
      → collect N py parse ss ≡ unless (first_fatal parse ss) (kept parse ss)
  unfolding collect
  collect-kept parse [] = refl
  collect-kept parse (s ∷ ss) = ground (arith, collect-kept parse ss)

  kept-length :
      (parse : Value Float → Outcome (Survey Float)) (ss : List (Value Float))
      → length (kept parse ss) ≤ length ss
  kept-length parse [] = omega arith
  kept-length parse (s ∷ ss) = ground (arith, kept-length parse ss)
