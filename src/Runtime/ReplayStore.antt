-- ===== src/Runtime/ReplayStore.antt =====
-- runtime/replay_store.py: the events of each cycle. A method under the lock is one step.
use lidenal85_blip.Base.{
  if◌then◌else◌, ◌==◌, string_eq, String, ◌≡◌, Option, none, some, List, [], ◌∷◌, ◌++◌, arith,
}
use lidenal85_blip.Base.Dict.{Dict, lookup, insert, lookup-insert}
use lidenal85_blip.Contracts.Value.{Value}

module _ {F : Type 0} where
  abbrev or_empty : Option (List (Dict String (Value F))) → List (Dict String (Value F))
  or_empty none = []
  or_empty (some events) = events

  unfoldable pub get :
      String → Dict String (List (Dict String (Value F))) → List (Dict String (Value F))
  get cycle_id store = or_empty (lookup cycle_id store)

  unfoldable pub record_event :
      String
      → Dict String (Value F)
      → Dict String (List (Dict String (Value F)))
      → Dict String (List (Dict String (Value F)))
  record_event cycle_id event store = insert cycle_id (get cycle_id store ++ event ∷ []) store

  -- Recording an event puts it behind those of its cycle, and leaves the others' events as they
  -- are.
  pub get-record_event :
      (cycle_id other : String) (event : Dict String (Value F))
      (store : Dict String (List (Dict String (Value F))))
      → get other (record_event cycle_id event store)
        ≡ (if other == cycle_id then get cycle_id store ++ event ∷ [] else get other store)
  unfolding get record_event
  get-record_event cycle_id other event store =
      let events : List (Dict String (Value F)) = or_empty (lookup cycle_id store) ++ event ∷ [] in
      ground (arith, lookup-insert other cycle_id events store)
