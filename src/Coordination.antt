-- ===== src/Coordination.antt =====
-- coordination/lease.py and leader.py over Redis, with guard.py. The `with` block of `acquire` is
-- a function of the server's database: what happens there while the lease is held.
pub mod TwoLeaders
use lidenal85_blip.Base.{
  if◌then◌else◌, ◌==◌, string_eq, ℕ, String, ◌<>◌, Bool, true, false, not, ◌&&◌, Option, none, some,
}
use lidenal85_blip.Redis.{StringStore}

unfoldable pub lease_key : String → String
lease_key key = "lease:" <> key

-- How the `with` statement ends: with the value of its block, or with the RuntimeError of
-- `acquire`.
pub data Held {ℓ} (A : Type ℓ) : Type ℓ where
  entered : A → Held A
  already_held : Held A

abbrev pub same_text : Option String → String → Bool
same_text none v = false
same_text (some c) v = not (c == "") && c == v

module _ (S : StringStore String) where
  open S use {Db, get, set_nx_ex, expire, delete}

  -- the `finally` of `acquire`: the lease is deleted if it still holds the value that was set
  unfoldable pub leave : String → String → Db → Db
  leave key lock_value d =
      if same_text (get (lease_key key) d) lock_value then delete (lease_key key) d else d

  unfoldable pub with_lease {ℓ} :
      {A : Type ℓ} → ℕ → String → String → (Db → Db × A) → Db → Db × Held A
  unfolding leave
  with_lease ttl key lock_value block d =
      let (d', acquired) = set_nx_ex (lease_key key) lock_value ttl d in
      let (d'', a) = block d' in
      if acquired then (leave key lock_value d'', entered a) else (d', already_held)

  unfoldable pub heartbeat : ℕ → String → Db → Db
  heartbeat ttl key d = expire (lease_key key) ttl d

  -- `LeaderElectionService`
  pub record Leader : Type 0 where
    pub service_id : String
    pub lease_ttl : ℕ
    pub is_leader : Bool

  unfoldable pub after_try : Leader → Db × Held Bool → Leader × Db × Bool
  after_try l (d, entered b) = (record l { is_leader = true }, d, b)
  after_try l (d, already_held) = (record l { is_leader = false }, d, false)

  -- `try_become_leader`: the `return True` stands inside the `with` block
  unfoldable pub try_become_leader : String → Leader → Db → Leader × Db × Bool
  unfolding after_try
  try_become_leader lock_value l d =
      after_try l (with_lease l.lease_ttl "leader_lock" lock_value (λ e. (e, true)) d)

  unfoldable pub leader_heartbeat : Leader → Db → Db
  leader_heartbeat l d = if l.is_leader then heartbeat l.lease_ttl "leader_lock" d else d

  -- `ExecutionGuard.ensure_leader`
  unfoldable pub ensure_leader : Leader → Bool
  ensure_leader l = if not l.is_leader then false else true

  new_leader : String → Leader
  new_leader service_id = record { service_id = service_id; lease_ttl = 30; is_leader = false }

  -- `get_leader_service` of coordination/bootstrap.py, over its `_leader_service`; the new uuid
  -- is given
  unfoldable pub get_leader_service : String → Option Leader → Option Leader × Leader
  unfolding new_leader
  get_leader_service service_id none = (some (new_leader service_id), new_leader service_id)
  get_leader_service service_id (some l) = (some l, l)

  -- `RedisLeaseProvider`, which forwards to a LeaseManager
  unfoldable pub provider_acquire {ℓ} :
      {A : Type ℓ} → ℕ → String → String → (Db → Db × A) → Db → Db × Held A
  provider_acquire ttl key lock_value block d = with_lease ttl key lock_value block d

  unfoldable pub provider_heartbeat : ℕ → String → Db → Db
  provider_heartbeat ttl key d = heartbeat ttl key d
