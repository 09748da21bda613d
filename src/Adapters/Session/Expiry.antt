-- ===== src/Adapters/Session/Expiry.antt =====
-- `is_valid` of a session with a time of expiry.
use lidenal85_blip.Base.{leb, string_eq, ℕ, String, ◌≡◌, ◌≢◌, Bool, true, Option, none, some, arith}
use lidenal85_blip.Base.Dict.{lookup}
use lidenal85_blip.Contracts.Value.{entries, Fields, str, dict, end, field, Value}
use lidenal85_blip.Contracts.Floats.{Floats, ok}
use lidenal85_blip.Contracts.Json.{Codec}
use lidenal85_blip.Redis.{StringStore}
use lidenal85_blip.Adapters.Items.{get, is_true, Python}
use lidenal85_blip.Adapters.Session.{get_session, is_valid, Moment, World, naive, aware}

no_entry : {F : Type 0} (k : String) (v : Value F) → lookup k (entries {F = F} end) ≢ some v
unfolding entries lookup
no_entry k v h = cc

module _ (N : Floats) (py : Python N) (codec : Codec N.Float) (S : StringStore codec.Text) (ttl : ℕ)
    (from_iso : String → Option Moment) where
  open N use {Float}

  -- the answer of `is_valid` by what the text of the session's expiry is read as
  abbrev pub valid_until : ℕ → Option Moment → Bool
  valid_until now (some (naive expires)) = leb now expires
  valid_until now (some (aware expires)) = true
  valid_until now none = true

  -- A cached session whose "expires_at" is a text that is not empty is valid up to the time that
  -- the text names if it names no time zone; if it names one, or is no time at all, the session
  -- is always valid.
  pub is_valid_lem :
      (now : ℕ) (source expires_at : String) (session : Fields Float) (w : World Float S.Db)
      → lookup source w.cache ≡ some (dict session)
      → lookup "expires_at" (entries session) ≡ some (str expires_at)
      → expires_at ≢ ""
      → is_valid N py codec S ttl from_iso now source w
        ≡ (w, ok (valid_until now (from_iso expires_at)))
  unfolding is_valid get_session is_true get
  is_valid_lem now source expires_at end w h e full =
      absurd (no_entry "expires_at" (str expires_at) e)
  is_valid_lem now source expires_at (field k v fs) w h e full = ground arith
