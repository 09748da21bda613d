-- ===== src/Execution/LeaseLock.antt =====
-- execution/locks/lease_lock.py: a lease with an owner. The owner None and the empty name are
-- both false in Python's tests, and are both modelled: a lock taken by "" is never held.
use lidenal85_blip.Base.{
  ltb, if◌then◌else◌, ◌==◌, string_eq, All, ℕ, ◌+◌, ◌≤◌, ◌<◌, String, ◌≡◌, refl, ◌≢◌, Bool, true,
  false, not, ◌&&◌, Option, none, some, List, [], ◌∷◌, arith,
}

pub record LeaseLock : Type 0 where
  pub owner : Option String
  pub expires_at : ℕ
  pub ttl_sec : ℕ

unfoldable pub init : ℕ → LeaseLock
init ttl_sec = record { owner = none; expires_at = 0; ttl_sec = ttl_sec }

-- the truth of `self._owner`
unfoldable pub truthy : Option String → Bool
truthy none = false
truthy (some name) = not (name == "")

unfoldable pub acquire : String → ℕ → LeaseLock → LeaseLock × Bool
unfolding truthy
acquire owner now l =
    if truthy l.owner && ltb now l.expires_at
    then (l, false)
    else (record l { owner = some owner; expires_at = now + l.ttl_sec }, true)

-- `self._owner == owner`
is_owner : String → Option String → Bool
is_owner name none = false
is_owner name (some o) = o == name

unfoldable pub release : String → LeaseLock → LeaseLock
unfolding is_owner
release owner l = if is_owner owner l.owner then record l { owner = none; expires_at = 0 } else l

pub data Call : Type 0 where
  acquire_call : String → ℕ → Call
  release_call : String → Call

-- The calls of parties other than `name`, before the time `end`.
abbrev pub IsOther : String → ℕ → Call → Type 0
IsOther name end (acquire_call o t) = t < end
IsOther name end (release_call o) = o ≢ name

unfoldable pub step : Call → LeaseLock → LeaseLock
unfolding acquire release
step (acquire_call o t) l = (acquire o t l).0
step (release_call o) l = release o l

unfoldable pub run : List Call → LeaseLock → LeaseLock
run [] l = l
run (c ∷ cs) l = run cs (step c l)

step_held :
    (name : String) (c : Call) (l : LeaseLock)
    → name ≢ ""
    → l.owner ≡ some name
    → IsOther name l.expires_at c
    → step c l ≡ l
unfolding step
step_held name (acquire_call o t) l ne own h = ground arith
step_held name (release_call o) l ne own h = ground arith

run_held :
    (name : String) (cs : List Call) (l : LeaseLock)
    → name ≢ ""
    → l.owner ≡ some name
    → All (IsOther name l.expires_at) cs
    → run cs l ≡ l
unfolding run
run_held name [] l ne own h = refl
run_held name (c ∷ cs) l ne own h =
    rw (step_held name c l ne own h.0) (run_held name cs l ne own h.1)

acquire_took :
    (name : String) (t : ℕ) (l : LeaseLock)
    → (acquire name t l).1 ≡ true
    → (acquire name t l).0 ≡ record l { owner = some name; expires_at = t + l.ttl_sec }
unfolding acquire
acquire_took name t l h = ground arith

-- A named owner that took the lease at time t keeps it, with its end, whatever calls others make
-- before t + ttl, their releases included; an acquisition before that time is refused.
pub acquire_keeps :
    (name other : String) (t u : ℕ) (cs : List Call) (l : LeaseLock)
    → name ≢ ""
    → (acquire name t l).1 ≡ true
    → All (IsOther name (t + l.ttl_sec)) cs
    → u < t + l.ttl_sec
    → let after = run cs (acquire name t l).0 in
      (after ≡ (acquire name t l).0) × ((acquire other u after).1 ≡ false)
acquire_keeps name other t u cs l ne h others early = rw (acquire_took name t l h) (
    let held = record l { owner = some name; expires_at = t + l.ttl_sec } in
    let same : run cs held ≡ held = run_held name cs held ne refl others in
    (same, rw same (refused held refl early)))
  where
    refused :
        (m : LeaseLock) → m.owner ≡ some name → u < m.expires_at → (acquire other u m).1 ≡ false
    refused m own small = unfold acquire in ground arith

-- When its owner releases it, or when its time has come, the lease is free for anybody.
pub acquire_free :
    (name other : String) (t u : ℕ) (l : LeaseLock)
    → (acquire name t l).1 ≡ true
    → ((acquire other u (release name (acquire name t l).0)).1 ≡ true)
      × (t + l.ttl_sec ≤ u → (acquire other u (acquire name t l).0).1 ≡ true)
unfolding acquire release
acquire_free name other t u l h = ground arith
