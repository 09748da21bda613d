-- ===== src/Contracts/Json.antt =====
-- Python's json module, a parameter of the model: `dumps` and `loads`, over the type of its
-- texts.
use lidenal85_blip.Base.{◌≡◌, Bool, true, false, Option, some}
use lidenal85_blip.Contracts.Value.{is_serialisable, Value}
use lidenal85_blip.Contracts.Floats.{Raised, Outcome, type_error, ok, raise}

pub record Codec (F : Type 0) : Type 1 where
  pub Text : Type 0
  pub dumps : Value F → Outcome Text
  -- none where `loads` raises a JSONDecodeError
  pub loads : Text → Option (Value F)
  -- the test `not text`
  pub is_blank : Text → Bool

-- `dumps` answers for every value without a datetime, with a text that is not empty and that
-- `loads` reads back; at a datetime it raises a TypeError.
pub record IsLawful {F : Type 0} (codec : Codec F) : Type 0 where
  pub dumps_ok :
      (v : Value F)
      → is_serialisable v ≡ true
      → (t : codec.Text) × (codec.dumps v ≡ ok t)
        × (codec.loads t ≡ some v)
        × (codec.is_blank t ≡ false)
  pub dumps_raises :
      (v : Value F)
      → is_serialisable v ≡ false
      → (e : Raised) × (codec.dumps v ≡ raise e) × (e.class_of ≡ type_error)
