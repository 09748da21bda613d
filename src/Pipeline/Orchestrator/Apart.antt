-- ===== src/Pipeline/Orchestrator/Apart.antt =====
-- The tasks of any number of orchestrators and cycles at one Redis server: how far apart the
-- calls of the dispatcher for one survey are. A task calls the dispatcher at the time of the
-- gate's answer, since it awaits nothing in between; how long the call then takes, and how often
-- it tries to send, is the dispatcher's own affair (Delivery). Of the server's commands those of
-- one call of the gate come together (Gate/Clients lets them interleave).
pub mod Invariant
use lidenal85_blip.Base.{refl, ap, ◌∙◌, Bool, true, Option, some}
use lidenal85_blip.Contracts.Survey.{basic_survey}
use lidenal85_blip.Pipeline.Orchestrator.{GateStatus}
use lidenal85_blip.Pipeline.Orchestrator.Effects.{
  survey_key, table, verdict, process_one-table, key,
}
use lidenal85_blip.Base.{
  Bool-cases, All, ℕ, ◌+◌, ◌≤◌, String, ◌≡◌, ◌≢◌, ◌⊎◌, inl, inr, false, none, List, [], ◌∷◌, arith,
}
use lidenal85_blip.Contracts.Floats.{Outcome, Floats, ok, raise}
use lidenal85_blip.Contracts.Survey.{Survey}
use lidenal85_blip.Contracts.Pydantic as Pydantic
use lidenal85_blip.Redis.{StringStore, IsLawful}
use lidenal85_blip.Gate.{lock_key, check_and_set, CheckResult}
use lidenal85_blip.Filter.Engine.{evaluate, Line, FilterResult}
use lidenal85_blip.Pipeline.Orchestrator.{
  idempotency_key, process_one, DispatchReply, Answers, Effect, Settings, check_key, send, store,
  is_rejected, filter_and_send, accepted, duplicate, dlq_item, to_dlq, delivered, duplicate_message,
  failed,
}

-- A call of `dispatcher.dispatch`: what its survey is, and when it is made.
pub record Dispatch : Type 0 where
  pub source : String
  pub id : String
  pub called_at : ℕ

module _ (N : Floats) (S : StringStore String) (ttl : ℕ) where
  open N use {Float}
  open S use {Db, get, elapse}

  -- The server, its time, and the calls of the dispatcher, the newest first.
  pub record World : Type 0 where
    pub db : Db
    pub now : ℕ
    pub dispatched : List Dispatch

  -- `check_and_set` with nothing between its commands
  abbrev pub ask : String → String → Db → Db × CheckResult
  ask key stamp d = check_and_set S ttl key stamp (λ e. e) (λ e. e) d

  -- what one request of a task does to the world
  unfoldable pub apply_effect : Settings N → String → Effect Float → World → World
  apply_effect settings stamp (check_key key) w = record w { db = (ask key stamp w.db).0 }
  apply_effect settings stamp (send s score reasons) w = record w {
    dispatched = record { source = s.source; id = s.id; called_at = w.now } ∷ w.dispatched;
  }
  apply_effect settings stamp (store item) w = w

  unfoldable pub apply_effects : Settings N → String → List (Effect Float) → World → World
  unfolding apply_effect
  apply_effects settings stamp [] w = w
  apply_effects settings stamp (e ∷ es) w =
      apply_effects settings stamp es (apply_effect settings stamp e w)

  -- `_process_one` at the server: the gate's answer is the server's, the dispatcher's is given
  unfoldable pub process_at :
      Settings N → String → Survey Float → Outcome DispatchReply → World → World
  unfolding apply_effects
  process_at settings stamp s reply w =
      let key = idempotency_key N settings s in
      let answers : Answers = record {
        gate = ok (ask key stamp w.db).1.status;
        dispatch = reply;
      } in
      apply_effects settings stamp (process_one N settings s answers).1 w

  pub data Step : World → World → Type 0 where
    processes :
        (w : World) (settings : Settings N) (stamp : String) (s : Survey Float)
        (reply : Outcome DispatchReply)
        → Pydantic.IsLawful N settings.construct
        → Step w (process_at settings stamp s reply w)
    waits : (w : World) (n : ℕ) → Step w (record w { db = elapse n w.db; now = w.now + n })
    -- whatever else happens, as long as it leaves the keys that are set, and their times to live
    other :
        (w : World) (d : Db)
        → ((key : String)
            → get key w.db ≢ none
            → (get key d ≢ none) × (S.ttl key w.db ≤ S.ttl key d))
        → Step w (record w { db = d })

  pub data Reach (w : World) : World → Type 0 where
    here : Reach w w
    next : {u v : World} → Reach w u → Step u v → Reach w v

  -- the world after a task that the filter rejects or not, and that the gate answers
  abbrev pub after_task : Survey Float → String → World → Bool → GateStatus → World
  after_task s stamp w true status = w
  after_task s stamp w false duplicate = record w {
    db = (ask (survey_key s.source s.id) stamp w.db).0;
  }
  after_task s stamp w false accepted = record w {
    db = (ask (survey_key s.source s.id) stamp w.db).0;
    dispatched = record { source = s.source; id = s.id; called_at = w.now } ∷ w.dispatched;
  }

  module _ (settings : Settings N) (stamp : String) (s : Survey Float) (w : World) where
    applied_lem :
        (rejects : Bool) (status : GateStatus) (failure : Option String)
        → apply_effects settings stamp (table N settings s rejects (ok status) failure).1 w
          ≡ after_task s stamp w rejects status
    unfolding apply_effects basic_survey
    applied_lem true status failure = refl
    applied_lem false duplicate failure = refl
    applied_lem false accepted none = refl
    applied_lem false accepted (some reason) = refl

    pub process_at_lem :
        (reply : Outcome DispatchReply)
        → Pydantic.IsLawful N settings.construct
        → process_at settings stamp s reply w
          ≡ after_task s stamp w
              (is_rejected (verdict N settings s).status)
              (ask (survey_key s.source s.id) stamp w.db).1.status
    unfolding process_at idempotency_key
    process_at_lem reply lawful =
        ap (λ r. apply_effects settings stamp r.1 w) (process_one-table N settings s lawful _)
        ∙ applied_lem _ _ _
