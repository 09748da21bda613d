-- ===== src/Pipeline/Orchestrator/Apart/Invariant.antt =====
-- Why two calls of the dispatcher for one survey are the gate's time to live apart.
use lidenal85_blip.Base.{
  All, ℕ, ◌+◌, ◌≤◌, ◌<◌, String, ◌≡◌, refl, ap, ◌∙◌, Bool, true, false, List, [], ◌∷◌, arith,
}
use lidenal85_blip.Contracts.Floats.{Floats}
use lidenal85_blip.Contracts.Survey.{Survey}
use lidenal85_blip.Redis.{StringStore, IsLawful}
use lidenal85_blip.Pipeline.Orchestrator.{GateStatus, accepted, duplicate, is_rejected}
use lidenal85_blip.Pipeline.Orchestrator.Effects.{survey_key, verdict}
use lidenal85_blip.Gate.Held.{AreApart, Keeps, IsHeld, IsHeld-kept, IsHeld-set, IsHeld-elapse}
use lidenal85_blip.Gate.{lock_key, check_and_set}
use lidenal85_blip.Pipeline.Orchestrator.Apart.{
  ask, World, Dispatch, after_task, process_at_lem, Step, Reach, processes, waits, other, here,
  next,
}

-- Two calls for surveys of the same source and identifier, the newest first, are a time apart, at
-- least.
abbrev pub LongAfter : ℕ → Dispatch → Dispatch → Type 0
LongAfter ttl later earlier =
    later.source ≡ earlier.source
    → later.id ≡ earlier.id
    → earlier.called_at + ttl ≤ later.called_at

abbrev pub AreDispatchesApart : ℕ → List Dispatch → Type 0
AreDispatchesApart ttl [] = Unit
AreDispatchesApart ttl (call ∷ earlier) =
    All (LongAfter ttl call) earlier × AreDispatchesApart ttl earlier

-- the keys under which the gate holds the surveys of the calls
abbrev pub held_keys : List Dispatch → List (String × ℕ)
held_keys [] = []
held_keys (call ∷ earlier) = (survey_key call.source call.id, call.called_at) ∷ held_keys earlier

module _ (N : Floats) (S : StringStore String) (ttl : ℕ) where
  open N use {Float}
  open S use {Db, get, elapse}

  held_keys-LongAfter :
      (call : Dispatch) (earlier : List Dispatch)
      → AreApart S ttl (held_keys (call ∷ earlier))
      → All (LongAfter ttl call) earlier
  held_keys-LongAfter call [] apart = tt
  held_keys-LongAfter call (e ∷ es) ((first, rest), (held, apart)) = (
    λ source id.
        first (ap (λ (x : String). survey_key x call.id) source ∙ ap (survey_key e.source) id),
    held_keys-LongAfter call es (rest, apart),
  )

  held_keys-Apart :
      (calls : List Dispatch) → AreApart S ttl (held_keys calls) → AreDispatchesApart ttl calls
  held_keys-Apart [] apart = tt
  held_keys-Apart (call ∷ earlier) apart =
      (held_keys-LongAfter call earlier apart, held_keys-Apart earlier apart.1)

  -- What is known of the surveys that were dispatched.
  abbrev IsKept : World N S ttl → Type 0
  IsKept w = IsHeld S ttl w.db w.now (held_keys w.dispatched)

  module _ (lawful : IsLawful S) (pos : 0 < ttl) where
    ask-Keeps : (key stamp : String) (d : Db) → Keeps S ttl d (ask N S ttl key stamp d).0
    unfolding check_and_set
    ask-Keeps key stamp d j set = (
      λ gone. ground (
        arith,
        lawful.get-set_nx_ex j (lock_key key) stamp ttl d pos,
        lawful.set_nx_ex_answer (lock_key key) stamp ttl d,
      ),
      ground (
        arith,
        lawful.ttl-set_nx_ex j (lock_key key) stamp ttl d,
        lawful.set_nx_ex_answer (lock_key key) stamp ttl d,
      ),
    )

    pub accepted_by_set :
        (key stamp : String) (d : Db)
        → (ask N S ttl key stamp d).1.status ≡ accepted
        → ((S.set_nx_ex (lock_key key) stamp ttl d).1 ≡ true)
          × ((ask N S ttl key stamp d).0 ≡ (S.set_nx_ex (lock_key key) stamp ttl d).0)
    unfolding check_and_set
    accepted_by_set key stamp d h = ground arith

    module _ (s : Survey Float) (stamp : String) (w : World N S ttl) where
      abbrev key : String
      key = survey_key s.source s.id

      after_task-Keeps :
          (rejects : Bool) (status : GateStatus)
          → Keeps S ttl w.db (after_task N S ttl s stamp w rejects status).db
      after_task-Keeps true status j set = (set, omega arith)
      after_task-Keeps false duplicate j set = ask-Keeps key stamp w.db j set
      after_task-Keeps false accepted j set = ask-Keeps key stamp w.db j set

      after_task-now :
          (rejects : Bool) (status : GateStatus)
          → (after_task N S ttl s stamp w rejects status).now ≡ w.now
      after_task-now true status = refl
      after_task-now false duplicate = refl
      after_task-now false accepted = refl

      after_task-IsKept :
          (rejects : Bool) (status : GateStatus)
          → (ask N S ttl key stamp w.db).1.status ≡ status
          → IsKept w
          → IsKept (after_task N S ttl s stamp w rejects status)
      after_task-IsKept true status e kept = kept
      after_task-IsKept false duplicate e kept =
          IsHeld-kept S ttl w.db (ask N S ttl key stamp w.db).0 w.now (held_keys w.dispatched)
            (ask-Keeps key stamp w.db) kept
      after_task-IsKept false accepted e kept =
          let (set, same) = accepted_by_set key stamp w.db e in
          rw same
            (IsHeld-set S ttl lawful pos key stamp w.db w.now (held_keys w.dispatched) set kept)

    Step-IsKept : {w v : World N S ttl} → Step N S ttl w v → IsKept w → IsKept v
    Step-IsKept (processes w settings stamp s reply valid) kept =
        rw (process_at_lem N S ttl settings stamp s w reply valid)
          (after_task-IsKept s stamp w _ _ refl kept)
    Step-IsKept (waits w n) kept =
        IsHeld-elapse S ttl lawful pos w.db w.now n (held_keys w.dispatched) kept
    Step-IsKept (other w d keeps) kept =
        IsHeld-kept S ttl w.db d w.now (held_keys w.dispatched) keeps kept

    Reach-IsKept : {w v : World N S ttl} → IsKept w → Reach N S ttl w v → IsKept v
    Reach-IsKept kept here = kept
    Reach-IsKept kept (next r s) = Step-IsKept s (Reach-IsKept kept r)

    -- entries that are held stay so, whatever else the tasks ask for
    Step-IsHeld :
        {w v : World N S ttl} (entries : List (String × ℕ))
        → Step N S ttl w v
        → IsHeld S ttl w.db w.now entries
        → IsHeld S ttl v.db v.now entries
    Step-IsHeld entries (processes w settings stamp s reply valid) held =
        let rejects = is_rejected (verdict N settings s).status in
        let status = (ask N S ttl (survey_key s.source s.id) stamp w.db).1.status in
        rw
          (
            process_at_lem N S ttl settings stamp s w reply valid,
            after_task-now s stamp w rejects status,
          )
          (IsHeld-kept S ttl w.db (after_task N S ttl s stamp w rejects status).db w.now entries
            (after_task-Keeps s stamp w rejects status) held)
    Step-IsHeld entries (waits w n) held = IsHeld-elapse S ttl lawful pos w.db w.now n entries held
    Step-IsHeld entries (other w d keeps) held = IsHeld-kept S ttl w.db d w.now entries keeps held

    pub Reach-IsHeld :
        {w v : World N S ttl} (entries : List (String × ℕ))
        → IsHeld S ttl w.db w.now entries
        → Reach N S ttl w v
        → IsHeld S ttl v.db v.now entries
    Reach-IsHeld entries held here = held
    Reach-IsHeld entries held (next r s) = Step-IsHeld entries s (Reach-IsHeld entries held r)

    -- At a lawful server, with a positive time to live and lawful validations: whatever surveys
    -- the tasks of any orchestrators and cycles process, one after the other, whatever the
    -- dispatcher answers them, and however long the program waits in between, as long as nothing
    -- else takes keys away that are set or shortens their times to live, two calls of the
    -- dispatcher for surveys of the same source and identifier are the time to live apart, at
    -- least. A call is at the time of the gate's answer; the attempts that it then makes to send
    -- are not timed.
    pub dispatches_apart :
        (d : Db) (now : ℕ) (v : World N S ttl)
        → Reach N S ttl (record { db = d; now = now; dispatched = [] }) v
        → AreDispatchesApart ttl v.dispatched
    dispatches_apart d now v r =
        held_keys-Apart v.dispatched (Reach-IsKept (record { apart = tt; blocked = tt }) r).apart
