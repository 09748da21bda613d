-- ===== src/Buffer.antt =====
-- buffer/queue.py: RedisBuffer over the lists of the Redis server and a JSON codec, both
-- parameters. `brpop` is taken as `rpop`: what is pushed while it waits is a push before it.
pub mod Queue
pub mod Backpressure
use lidenal85_blip.Base.{◌==◌, not, ◌&&◌}
use lidenal85_blip.Contracts.Value.{bool, int, float, datetime, list, nil, cons, field}
use lidenal85_blip.Contracts.Floats.{is_zero}
use lidenal85_blip.Base.{
  ltb, leb, if◌then◌else◌, string_eq, ℕ, zero, suc, String, Bool, true, false, Option, none, some,
  List, [], ◌∷◌,
}
use lidenal85_blip.Base.Dict.{Dict, insert}
use lidenal85_blip.Contracts.Value.{of_entries, Value, natural, null, str, dict, end}
use lidenal85_blip.Contracts.Floats.{Outcome, Floats, ok, raise}
use lidenal85_blip.Contracts.Json.{Codec}
use lidenal85_blip.Redis.{ListStore}

module _ {F : Type 0} where
  -- the event as it is stored
  unfoldable pub stamped : String → Dict String (Value F) → Value F
  stamped now event = dict (of_entries (insert "queued_at" (str now) event))

module _ (N : Floats) where
  open N use {Float, le, decimal}

  -- `if event:` of what `json.loads` gives
  unfoldable pub is_truthy : Value Float → Bool
  is_truthy null = false
  is_truthy (bool b) = b
  is_truthy (int n) = not (is_zero n)
  is_truthy (float x) = not (le x (decimal 0 1) && le (decimal 0 1) x)
  is_truthy (str s) = not (s == "")
  is_truthy (datetime t) = true
  is_truthy (list nil) = false
  is_truthy (list (cons v vs)) = true
  is_truthy (dict end) = false
  is_truthy (dict (field k v fs)) = true

module _ {F : Type 0} (codec : Codec F) where
  open codec use {Text, loads, is_blank}

  unfoldable pub decoded : Option Text → Option (Value F)
  decoded none = none
  decoded (some t) = if is_blank t then none else loads t

module _ (N : Floats) (codec : Codec N.Float) (S : ListStore codec.Text) (key : String)
    (max_size : ℕ) where
  open N use {Float}
  open codec use {Text, dumps}
  open S use {Db, llen, lpush, rpop, delete}

  unfoldable pub pushed : Db → Outcome Text → Db × Outcome Bool
  pushed d (ok t) = (lpush key t d, ok true)
  pushed d (raise e) = (d, raise e)

  unfoldable pub push : String → Dict String (Value Float) → Db → Db × Outcome Bool
  unfolding pushed
  push now event d =
      if leb max_size (llen key d) then (d, ok false) else pushed d (dumps (stamped now event))

  unfoldable pub pop : Db → Db × Option (Value Float)
  unfolding decoded
  pop d = let (d', result) = rpop key d in (d', decoded codec result)

  unfoldable pub take_event :
      Option (Value Float) → Db × List (Value Float) → Db → Db × List (Value Float)
  take_event none rest d = (d, [])
  take_event (some v) (d', vs) d = if is_truthy N v then (d', v ∷ vs) else (d, [])

  unfoldable pub pop_batch : ℕ → Db → Db × List (Value Float)
  unfolding take_event
  pop_batch zero d = (d, [])
  pop_batch (suc n) d = let rest = pop_batch n (pop d).0 in take_event (pop d).1 rest (pop d).0

  unfoldable pub size : Db → ℕ
  size d = llen key d

  unfoldable pub clear : Db → Db
  clear d = delete key d

  unfoldable pub is_full : Db → Bool
  unfolding size
  is_full d = leb max_size (size d)

  -- `get_usage_ratio`
  unfoldable pub usage_ratio : Db → Float
  unfolding size
  usage_ratio d =
      if ltb 0 max_size
      then N.div (N.of_integer (natural (size d))) (N.of_integer (natural max_size))
      else N.decimal 0 1
