-- ===== src/Dlq.antt =====
-- dlq/storage.py: what `DLQStorage.store` does, over the lists of the Redis server and a JSON
-- codec.
pub mod Fetch
use lidenal85_blip.Base.{string_eq, ℕ, String, ◌<>◌, ◌≡◌, refl, Bool, true, false, ◌&&◌}
use lidenal85_blip.Base.Dict.{insert}
use lidenal85_blip.Contracts.Value.{
  of_entries, is_serialisable, Value, str, dict, fields_serialisable,
}
use lidenal85_blip.Contracts.Floats.{Raised, Outcome, type_error, ok, raise}
use lidenal85_blip.Contracts.Survey.{dump_dlq_item, DlqItem}
use lidenal85_blip.Contracts.Json.{Codec, IsLawful}
use lidenal85_blip.Redis.{ListStore}

unfoldable pub item_key : {F : Type 0} → DlqItem F → String
item_key i = "dlq:" <> (i.cycle_id <> (":" <> i.source))

unfoldable pub item_value : {F : Type 0} → String → DlqItem F → Value F
item_value now i = dict (of_entries (insert "stored_at" (str now) (dump_dlq_item i)))

and-false : (b : Bool) → (b && false) ≡ false
and-false true = refl
and-false false = refl

module _ {F : Type 0} (codec : Codec F) (S : ListStore codec.Text) (ttl : ℕ) where
  open codec use {Text, dumps}
  open S use {Db, lpush, expire}

  stored : String → Outcome Text → Db → Db × Outcome Bool
  stored key (ok t) d = (expire key ttl (lpush key t d), ok true)
  stored key (raise e) d = (d, raise e)

  -- `store`; the answer None is `ok true`
  unfoldable pub store : String → DlqItem F → Db → Db × Outcome Bool
  unfolding stored
  store now i d = stored (item_key i) (dumps (item_value now i)) d

  item_value_unserialisable :
      (now : String) (i : DlqItem F) → is_serialisable (item_value now i) ≡ false
  unfolding item_value dump_dlq_item insert of_entries string_eq is_serialisable fields_serialisable
  item_value_unserialisable now i = and-false (fields_serialisable (of_entries i.raw_payload))

  -- With a lawful codec, storing an item always raises a TypeError and leaves the server as it
  -- was: the time `failed_at` is a datetime, which JSON has no text for.
  pub store_raises :
      (lawful : IsLawful codec) (now : String) (i : DlqItem F) (d : Db)
      → (e : Raised) × (store now i d ≡ (d, raise e)) × (e.class_of ≡ type_error)
  unfolding store
  store_raises lawful now i d =
      let (e, raises, class) =
        lawful.dumps_raises (item_value now i) (item_value_unserialisable now i) in
      (e, rw raises refl, class)
