-- ===== src/Adapters/Session.antt =====
-- adapters/session.py: the SessionManager of a process, over the string keys of the Redis server
-- and a JSON codec, both parameters. The manager's state is its cache; the server's database is
-- shared.
pub mod Sharing
pub mod Expiry
use lidenal85_blip.Base.{
  ltb, if◌then◌else◌, string_eq, ℕ, String, ◌<>◌, Bool, false, not, ◌&&◌, Option, none, some,
}
use lidenal85_blip.Base.Dict.{Dict, lookup, insert, erase}
use lidenal85_blip.Contracts.Value.{Value, null, str}
use lidenal85_blip.Contracts.Floats.{◌>>=◌, Raised, Outcome, Floats, value_error, ok, raise}
use lidenal85_blip.Contracts.Json.{Codec}
use lidenal85_blip.Redis.{StringStore}
use lidenal85_blip.Adapters.Items.{get, is_true, Python, raise_on}

-- What `datetime.fromisoformat` makes of a text: a time without a time zone or one with it, which
-- `datetime.utcnow()` cannot be compared with, or none where it raises a ValueError.
pub data Moment : Type 0 where
  naive aware : ℕ → Moment

unfoldable pub session_key : String → String
session_key source = "session:" <> source

abbrev pub Cache : Type 0 → Type 0
Cache F = Dict String (Value F)

-- The cache of the process, and the database.
pub record World (F Db : Type 0) : Type 0 where
  pub cache : Cache F
  pub db : Db

module _ (N : Floats) (py : Python N) (codec : Codec N.Float) (S : StringStore codec.Text)
    (ttl : ℕ) where
  open N use {Float}
  open codec use {Text, dumps, loads, is_blank}

  abbrev State : Type 0
  State = World Float S.Db

  cached : String → State → Option (Value Float) → State × Outcome (Option (Value Float))
  cached source w none = (w, raise_on N py value_error null)
  cached source w (some session) =
      (record w { cache = insert source session w.cache }, ok (some session))

  -- `if data:`
  from_redis : String → State → Option Text → State × Outcome (Option (Value Float))
  from_redis source w none = (w, ok none)
  from_redis source w (some text) =
      if is_blank text then (w, ok none) else cached source w (loads text)

  from_cache : String → State → Option (Value Float) → State × Outcome (Option (Value Float))
  from_cache source w (some session) = (w, ok (some session))
  from_cache source w none = from_redis source w (S.get (session_key source) w.db)

  -- `get_session`; `ok none` is None
  unfoldable pub get_session : String → State → State × Outcome (Option (Value Float))
  unfolding cached from_redis from_cache
  get_session source w = from_cache source w (lookup source w.cache)

  dumped : String → State → Outcome Text → State × Outcome (Unit {0})
  dumped source w (ok text) = (record w { db = S.setex (session_key source) ttl text w.db }, ok tt)
  dumped source w (raise e) = (w, raise e)

  -- `save_session`: the cache first, then the server
  unfoldable pub save_session : String → Value Float → State → State × Outcome (Unit {0})
  unfolding dumped
  save_session source session w =
      dumped source (record w { cache = insert source session w.cache }) (dumps session)

  -- `clear_session`
  unfoldable pub clear_session : String → State → State
  clear_session source w = record w {
    cache = erase source w.cache;
    db = S.delete (session_key source) w.db;
  }

  module _ (from_iso : String → Option Moment) where
    -- `datetime.utcnow() > expires`, under its `except (ValueError, TypeError)`
    is_past : ℕ → Option Moment → Bool
    is_past now (some (naive expires)) = ltb expires now
    is_past now (some (aware expires)) = false
    is_past now none = false

    -- `datetime.fromisoformat` takes texts only
    has_expired : ℕ → Value Float → Bool
    has_expired now (str text) = is_past now (from_iso text)
    has_expired now v = false

    check_expiry : ℕ → Value Float → Outcome Bool
    check_expiry now expires_at = ok (not (is_true N py expires_at && has_expired now expires_at))

    check_session : ℕ → Option (Value Float) → Outcome Bool
    check_session now none = ok false
    check_session now (some session) =
        if is_true N py session
        then (get N py "expires_at" null session >>= check_expiry now)
        else ok false

    -- `is_valid`
    unfoldable pub is_valid : ℕ → String → State → State × Outcome Bool
    unfolding is_past has_expired check_expiry check_session
    is_valid now source w =
        let (w', session) = get_session source w in (w', session >>= check_session now)
