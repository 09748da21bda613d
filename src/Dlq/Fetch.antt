-- ===== src/Dlq/Fetch.antt =====
-- dlq/storage.py: the fetches, the deletion and the counts of `DLQStorage`, and dlq/replay.py
-- over them. What KEYS answers to a pattern, and `DLQItem(**data)`, which raises a TypeError for
-- what is no dict and a ValidationError else, are parameters; a limit is no negative number.
pub mod Limits
use lidenal85_blip.Base.{
  leb, eqb, if◌then◌else◌, ◌==◌, string_eq, length, take, ℕ, String, ◌<>◌, Bool, true, false,
  Option, none, some, List, [], ◌∷◌, ◌++◌,
}
use lidenal85_blip.Contracts.Value.{Value}
use lidenal85_blip.Contracts.Floats.{◌>>=◌, ExceptionClass, Outcome, type_error, ok, raise}
use lidenal85_blip.Contracts.Survey.{DlqItem}
use lidenal85_blip.Contracts.Json.{Codec}
use lidenal85_blip.Redis.{ListStore}

-- The patterns of the keys.
unfoldable pub cycle_pattern : String → String
cycle_pattern cycle_id = "dlq:" <> (cycle_id <> ":*")

unfoldable pub source_pattern : String → String
source_pattern source = "dlq:*:" <> source

pub record Stats : Type 0 where
  pub total_items : ℕ
  pub is_ok : Bool

-- the `except (json.JSONDecodeError, TypeError)`
abbrev pub is_logged : ExceptionClass → Bool
is_logged type_error = true
is_logged _ = false

module _ {F : Type 0} (codec : Codec F) (S : ListStore codec.Text)
    (keys_of : String → S.Db → List String) (item_of : Value F → Outcome (DlqItem F)) where
  open codec use {Text, loads}
  open S use {Db, items, delete}

  -- LRANGE key 0 limit-1; the last index -1 is the end of the list
  unfoldable pub lrange : ℕ → String → Db → List Text
  lrange limit key d = if eqb limit 0 then items key d else take limit (items key d)

  unfoldable pub unless_logged : Outcome (DlqItem F) → Outcome (List (DlqItem F))
  unless_logged (ok item) = ok (item ∷ [])
  unless_logged (raise e) = if is_logged e.class_of then ok [] else raise e

  -- the `try`, from what `json.loads` reads; its JSONDecodeError is logged
  unfoldable pub read_one : Option (Value F) → Outcome (List (DlqItem F))
  unfolding unless_logged
  read_one none = ok []
  read_one (some v) = unless_logged (item_of v)

  -- the inner loop
  unfoldable pub read_items : List Text → Outcome (List (DlqItem F))
  read_items [] = ok []
  read_items (t ∷ ts) = do first ← read_one (loads t); more ← read_items ts; ok (first ++ more)

  -- the outer loop, with the items so far
  unfoldable pub read_keys : ℕ → List String → List (DlqItem F) → Db → Outcome (List (DlqItem F))
  read_keys limit [] found d = ok found
  read_keys limit (key ∷ rest) found d = read_items (lrange limit key d) >>= λ more.
      let found' = found ++ more in
      let later = read_keys limit rest found' d in
      if leb limit (length found') then ok found' else later

  -- `fetch_by_cycle` and `fetch_by_source`
  unfoldable pub fetch_by_cycle : String → ℕ → Db → Outcome (List (DlqItem F))
  fetch_by_cycle cycle_id limit d = read_keys limit (keys_of (cycle_pattern cycle_id) d) [] d

  unfoldable pub fetch_by_source : String → ℕ → Db → Outcome (List (DlqItem F))
  fetch_by_source source limit d = read_keys limit (keys_of (source_pattern source) d) [] d

  unfoldable pub delete_keys : List String → Db → Db
  delete_keys [] d = d
  delete_keys (key ∷ rest) d = delete_keys rest (delete key d)

  -- `delete_by_cycle`; the keys that KEYS lists are there, so DEL counts them all
  unfoldable pub delete_by_cycle : String → Db → Db × ℕ
  delete_by_cycle cycle_id d =
      let found = keys_of (cycle_pattern cycle_id) d in (delete_keys found d, length found)

  -- `count`; no cycle is none or empty
  unfoldable pub count : Option String → Db → ℕ
  count none d = length (keys_of "dlq:*" d)
  count (some cycle_id) d =
      length (keys_of (if cycle_id == "" then "dlq:*" else cycle_pattern cycle_id) d)

  -- `_replay_items`: an item that is logged counts as replayed
  unfoldable pub replay_items : List (DlqItem F) → Option String → Db → Db × ℕ
  replay_items [] cycle_id d = (d, 0)
  replay_items (i ∷ is) none d = (d, length (i ∷ is))
  replay_items (i ∷ is) (some cycle_id) d =
      (if cycle_id == "" then d else (delete_by_cycle cycle_id d).0, length (i ∷ is))

  unfoldable pub replay_fetched : Option String → Db → Outcome (List (DlqItem F)) → Db × Outcome ℕ
  replay_fetched cycle_id d (ok found) =
      let (d', successful) = replay_items found cycle_id d in (d', ok successful)
  replay_fetched cycle_id d (raise e) = (d, raise e)

  -- `replay_by_cycle` and `replay_by_source`, with the limit's default
  unfoldable pub replay_by_cycle : String → Db → Db × Outcome ℕ
  replay_by_cycle cycle_id d = replay_fetched (some cycle_id) d (fetch_by_cycle cycle_id 100 d)

  unfoldable pub replay_by_source : String → Db → Db × Outcome ℕ
  replay_by_source source d = replay_fetched none d (fetch_by_source source 100 d)

  -- `get_dlq_stats`
  unfoldable pub get_dlq_stats : Db → Stats
  get_dlq_stats d = record { total_items = count none d; is_ok = eqb (count none d) 0 }
