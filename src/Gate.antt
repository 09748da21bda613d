-- ===== src/Gate.antt =====
-- idempotency/gate.py: the gate over Redis. `others` and `others'` are what other clients and
-- time do to the server between the commands of one call. Of the answer the status and the text
-- of the time stamp are kept; `datetime.fromisoformat` of that text is left out.
pub mod Window
pub mod Race
pub mod Held
pub mod Clients
use lidenal85_blip.Base.{
  if◌then◌else◌, ◌==◌, string_eq, ℕ, String, ◌<>◌, Bool, true, false, not, Option, none, some,
}
use lidenal85_blip.Redis.{StringStore}
use lidenal85_blip.Pipeline.Orchestrator.{GateStatus, accepted, duplicate}

pub record CheckResult : Type 0 where
  pub status : GateStatus
  pub idempotency_key : String
  pub first_seen_at : Option String

-- the truth of a text that may be None
abbrev pub is_truthy : Option String → Bool
is_truthy none = false
is_truthy (some s) = not (s == "")

unfoldable pub lock_key : String → String
lock_key key = "idempotency:" <> key

module _ (S : StringStore String) (ttl : ℕ) where
  open S use {Db, get, set_nx_ex, delete}

  -- from the SET on
  set_and_answer : String → String → (Db → Db) → Db → Db × CheckResult
  set_and_answer key now others' d =
      let (d', set) = set_nx_ex (lock_key key) now ttl d in
      if set
      then (d', record { status = accepted; idempotency_key = key; first_seen_at = some now })
      else (
        others' d',
        record {
          status = duplicate;
          idempotency_key = key;
          first_seen_at = get (lock_key key) (others' d');
        },
      )

  unfoldable pub check_and_set : String → String → (Db → Db) → (Db → Db) → Db → Db × CheckResult
  unfolding set_and_answer
  check_and_set key now others others' d =
      let exists = get (lock_key key) d in
      if is_truthy exists
      then (d, record { status = duplicate; idempotency_key = key; first_seen_at = exists })
      else set_and_answer key now others' (others d)

  unfoldable pub clear : String → Db → Db
  clear key d = delete (lock_key key) d

  unfoldable pub exists : String → Db → Bool
  exists key d = elim (get (lock_key key) d) [ none ↦ false | some _ ↦ true ]

  -- `get_timestamp`; `parse` is `datetime.fromisoformat`, none where it raises
  unfoldable pub get_timestamp : (String → Option ℕ) → String → Db → Option ℕ
  get_timestamp parse key d = elim (get (lock_key key) d) [
    | none ↦ none
    | some v ↦ if v == "" then none else parse v
  ]
