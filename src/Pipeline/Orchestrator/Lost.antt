-- ===== src/Pipeline/Orchestrator/Lost.antt =====
-- A survey whose delivery fails, through the orchestrator, the gate and the dead letter queue,
-- and the later cycles.
use lidenal85_blip.Base.{
  if◌then◌else◌, ℕ, ◌+◌, ◌<◌, String, ◌≡◌, refl, ◌∙◌, ◌≢◌, Bool, true, false, Option, none, some,
  [], ◌∷◌, arith,
}
use lidenal85_blip.Contracts.Floats.{Outcome, Floats, ok, raise, Raised}
use lidenal85_blip.Contracts.Survey.{Survey}
use lidenal85_blip.Contracts.Pydantic as Pydantic
use lidenal85_blip.Contracts.Json as Json
use lidenal85_blip.Redis as Redis
use lidenal85_blip.Filter.Engine.{rejected, eligible, review, Status}
use lidenal85_blip.Gate.{lock_key, check_and_set}
use lidenal85_blip.Gate.Held.{IsHeld, IsHeld-set}
use lidenal85_blip.Dlq
use lidenal85_blip.Pipeline.Orchestrator.{
  store, no_counts, is_rejected, process_one, DispatchReply, Settings, accepted, delivered,
  duplicate_message, failed, check_key, duplicate,
}
use lidenal85_blip.Pipeline.Orchestrator.Effects.{
  verdict, key, letter, message, table, failure_of, process_one-table,
}
use lidenal85_blip.Pipeline.Orchestrator.Apart.{ask, World, process_at, process_at_lem, Reach}
use lidenal85_blip.Pipeline.Orchestrator.Apart.Invariant.{Reach-IsHeld, accepted_by_set}

not_rejected : (status : Status) → status ≢ rejected → is_rejected status ≡ false
not_rejected eligible h = refl
not_rejected review h = refl
not_rejected rejected h = absurd (h refl)

reason_of :
    (reply : Outcome DispatchReply)
    → reply ≢ ok delivered
    → (reason : String) × (failure_of reply ≡ some reason)
reason_of (ok delivered) h = absurd (h refl)
reason_of (ok duplicate_message) h = ("dispatch_failed", refl)
reason_of (ok (failed error)) h = (error, refl)
reason_of (raise e) h = (e.text, refl)

module _ (N : Floats) (S : Redis.StringStore String) (ttl : ℕ) (server : Redis.IsLawful S)
    (pos : 0 < ttl) where
  open N use {Float}

  ask_fresh :
      (k stamp : String) (d : S.Db)
      → S.get (lock_key k) d ≡ none
      → (ask N S ttl k stamp d).1.status ≡ accepted
  unfolding check_and_set
  ask_fresh k stamp d fresh = ground (arith, server.set_nx_ex_answer (lock_key k) stamp ttl d)

  ask_held :
      (k stamp : String) (d : S.Db)
      → S.get (lock_key k) d ≢ none
      → (ask N S ttl k stamp d).1.status ≡ duplicate
  unfolding check_and_set
  ask_held k stamp d held = ground (arith, server.set_nx_ex_answer (lock_key k) stamp ttl d)

  first_task-IsHeld :
      (settings : Settings N) (stamp : String) (s : Survey Float) (reply : Outcome DispatchReply)
      (d : S.Db) (now : ℕ)
      → Pydantic.IsLawful N settings.construct
      → (verdict N settings s).status ≢ rejected
      → S.get (lock_key (key N settings s)) d ≡ none
      → let w' =
          process_at N S ttl settings stamp s reply
            (record { db = d; now = now; dispatched = [] }) in
        IsHeld S ttl w'.db w'.now ((key N settings s, now) ∷ [])
  first_task-IsHeld settings stamp s reply d now lawful kept fresh =
      let k = key N settings s in
      let taken = ask_fresh k stamp d fresh in
      let (set, same) = accepted_by_set N S ttl server pos k stamp d taken in
      rw
        (
          process_at_lem N S ttl settings stamp s (record { db = d; now = now; dispatched = [] })
              reply lawful,
          not_rejected _ kept,
          taken,
          same,
        )
        (IsHeld-set S ttl server pos k stamp d now [] set (record { apart = tt; blocked = tt }))

  table_duplicate :
      (settings : Settings N) (s : Survey Float) (rejects : Bool) (failure : Option String)
      → table N settings s rejects (ok duplicate) failure ≡ (
          if rejects
          then (record no_counts { rejected_count = 1 }, [])
          else (record no_counts { duplicate_count = 1 }, check_key (key N settings s) ∷ []))
  table_duplicate settings s true failure = refl
  table_duplicate settings s false failure = refl

  -- At a lawful server with a positive time to live, with lawful validations and a lawful codec:
  -- a survey that the filter does not reject and whose key is not set is handed to the dispatcher
  -- once, and if the dispatcher does not answer that it was delivered, the task asks the dead
  -- letter queue to store it, which raises and stores nothing. After that, whatever surveys the
  -- tasks of any cycles process, however long the program waits, and whatever else happens that
  -- takes no key away that is set and shortens no time to live: while less than the gate's time
  -- to live has passed, a task of any cycle, with any profile and settings, does not dispatch the
  -- survey, whatever the dispatcher would answer; it counts it as rejected if its filter rejects
  -- it, and else as a duplicate.
  pub undelivered_is_lost :
      (settings : Settings N) (stamp : String) (s : Survey Float) (reply : Outcome DispatchReply)
      (d : S.Db) (now : ℕ) (codec : Json.Codec Float) (L : Redis.ListStore codec.Text) (dlq_ttl : ℕ)
      (letters : L.Db) (v : World N S ttl) (settings' : Settings N) (stamp' : String)
      (reply' : Outcome DispatchReply)
      → Pydantic.IsLawful N settings.construct
      → Pydantic.IsLawful N settings'.construct
      → Json.IsLawful codec
      → (verdict N settings s).status ≢ rejected
      → reply ≢ ok delivered
      → S.get (lock_key (key N settings s)) d ≡ none
      → Reach N S ttl
          (process_at N S ttl settings stamp s reply
            (record { db = d; now = now; dispatched = [] }))
          v
      → v.now < now + ttl
      → (reason : String) × (e : Raised) × (failure_of reply ≡ some reason)
        × (process_one N settings s (record {
          gate = ok (ask N S ttl (key N settings s) stamp d).1.status;
          dispatch = reply;
        })
            ≡ (
              record no_counts { error_count = 1 },
              check_key (key N settings s)
                  ∷ message N settings s
                  ∷ store (letter N settings s reason)
                  ∷ [],
            ))
        × (Dlq.store codec L dlq_ttl stamp (letter N settings s reason) letters
            ≡ (letters, raise e))
        × (process_one N settings' s (record {
          gate = ok (ask N S ttl (key N settings' s) stamp' v.db).1.status;
          dispatch = reply';
        })
            ≡ (if is_rejected (verdict N settings' s).status
                then (record no_counts { rejected_count = 1 }, [])
                else (
                  record no_counts { duplicate_count = 1 },
                  check_key (key N settings' s) ∷ [],
                )))
  undelivered_is_lost settings stamp s reply d now codec L dlq_ttl letters v settings' stamp' reply'
        lawful lawful' json kept unsent fresh r early =
      let k = key N settings s in
      let (reason, failure) = reason_of reply unsent in
      let (e, raises, class) =
        Dlq.store_raises codec L dlq_ttl json stamp (letter N settings s reason) letters in
      let held =
        Reach-IsHeld N S ttl server pos ((k, now) ∷ [])
          (first_task-IsHeld settings stamp s reply d now lawful kept fresh) r in
      let again = ask_held k stamp' v.db (held.blocked.0 early).0 in
      (
        reason,
        e,
        failure,
        process_one-table N settings s lawful _
            ∙ rw (ask_fresh k stamp d fresh, not_rejected _ kept, failure),
        raises,
        process_one-table N settings' s lawful' _ ∙ rw again (table_duplicate settings' s _ _),
      )
