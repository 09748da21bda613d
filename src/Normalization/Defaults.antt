-- ===== src/Normalization/Defaults.antt =====
-- What the engine's renaming and defaults make of a raw dict.
use lidenal85_blip.Base.{
  Option-cases, if◌then◌else◌, ◌==◌, string_eq, All, String, ◌≡◌, refl, ◌∙◌, ◌≢◌, inl, inr, false,
  Option, none, some, List, [], ◌∷◌, arith,
}
use lidenal85_blip.Base.Dict.{Dict, lookup, has, lookup-insert, lookup-insert_self}
use lidenal85_blip.Contracts.Value.{Value}
use lidenal85_blip.Contracts.Floats.{Floats}
use lidenal85_blip.Contracts.Pydantic.{Pydantic}
use lidenal85_blip.Normalization.Schema.{required, is_missing, missing_errors, rename, rename_all}
use lidenal85_blip.Normalization.{rename_fields, apply_default, apply_defaults, engine_mappings}

module _ {F : Type 0} where
  -- a key that is there with a value other than None
  abbrev pub IsPresent : String → Dict String (Value F) → Type 0
  IsPresent k d = is_missing (lookup k d) ≡ false

  apply_default_self :
      (k : String) (v : Value F) (d : Dict String (Value F))
      → is_missing (some v) ≡ false
      → IsPresent k (apply_default k v d)
  unfolding apply_default
  apply_default_self k v d h = grind (arith, lookup-insert_self k v d)

  apply_default_keeps :
      (j k : String) (v : Value F) (d : Dict String (Value F))
      → is_missing (some v) ≡ false
      → IsPresent j d
      → IsPresent j (apply_default k v d)
  unfolding apply_default
  apply_default_keeps j k v d h p = ground (arith, lookup-insert j k v d)

  missing_errors_none :
      (fs : List String) (d : Dict String (Value F))
      → All (λ f. IsPresent f d) fs
      → missing_errors fs d ≡ []
  unfolding missing_errors
  missing_errors_none [] d h = refl
  missing_errors_none (f ∷ fs) d h = rw (h.0, missing_errors_none fs d h.1)

  abbrev pub or_else : Option (Value F) → Option (Value F) → Option (Value F)
  or_else none o = o
  or_else (some v) o = some v

  lookup-rename :
      (j old new : String) (d : Dict String (Value F))
      → lookup j (rename old new d)
        ≡ (if j == new then or_else (lookup new d) (lookup old d) else lookup j d)
  unfolding rename has
  lookup-rename j old new d = elim (Option-cases (lookup old d)) [
    | inl e ↦ ground (arith)
    | inr (v, e) ↦ ground (arith, lookup-insert j new v d)
  ]

  or_else_assoc : (a b c : Option (Value F)) → or_else (or_else a b) c ≡ or_else a (or_else b c)
  or_else_assoc none b c = refl
  or_else_assoc (some v) b c = refl

  lookup-rename_all_ne :
      (j : String) (table : List (String × String)) (d : Dict String (Value F))
      → All (λ entry. j ≢ entry.1) table
      → lookup j (rename_all table d) ≡ lookup j d
  unfolding rename_all
  lookup-rename_all_ne j [] d h = refl
  lookup-rename_all_ne j ((old, new) ∷ table) d h =
      lookup-rename_all_ne j table (rename old new d) h.1
      ∙ ground (arith, h.0, lookup-rename j old new d)

  -- The identifier of a raw dict is its "id", else its "survey_id", else its "study_id", and in
  -- the same way for the other four fields that have other names.
  pub rename_fields-lookup :
      (d : Dict String (Value F))
      → (lookup "id" (rename_fields d)
          ≡ or_else (lookup "id" d) (or_else (lookup "survey_id" d) (lookup "study_id" d)))
        × (lookup "payout" (rename_fields d)
            ≡ or_else (lookup "payout" d) (or_else (lookup "compensation" d) (lookup "reward" d)))
        × (lookup "duration_minutes" (rename_fields d)
            ≡ or_else
                (lookup "duration_minutes" d)
                (or_else (lookup "duration" d) (lookup "time" d)))
        × (lookup "title" (rename_fields d) ≡ or_else (lookup "title" d) (lookup "name" d))
        × (lookup "source" (rename_fields d) ≡ or_else (lookup "source" d) (lookup "platform" d))
  unfolding rename_fields string_eq
  rename_fields-lookup d = (
    simp (lookup-rename, or_else_assoc),
    simp (lookup-rename, or_else_assoc),
    simp (lookup-rename, or_else_assoc),
    simp lookup-rename,
    simp lookup-rename,
  )

  -- Renaming leaves every key alone but the five that it may fill.
  pub rename_fields_other :
      (j : String) (d : Dict String (Value F))
      → j ≢ "id"
      → j ≢ "payout"
      → j ≢ "duration_minutes"
      → j ≢ "title"
      → j ≢ "source"
      → lookup j (rename_fields d) ≡ lookup j d
  unfolding rename_fields
  rename_fields_other j d i p m t s =
      lookup-rename_all_ne j engine_mappings d (i, (i, (t, (p, (p, (m, (m, (s, tt))))))))

module _ (N : Floats) (construct : Pydantic N) where
  open N use {Float}

  -- After the engine's defaults no required field is missing, whatever the raw dict holds: the
  -- validator's "Missing required field" errors cannot occur on the engine's path.
  pub apply_defaults_complete :
      (d : Dict String (Value Float)) → missing_errors required (apply_defaults N construct d) ≡ []
  unfolding apply_defaults
  apply_defaults_complete d =
      missing_errors_none required _ (search (apply_default_keeps, apply_default_self) depth 8)
