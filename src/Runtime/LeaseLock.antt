-- ===== src/Runtime/LeaseLock.antt =====
-- runtime/lease.py: a lease with a time to live, and no record of who holds it.
use lidenal85_blip.Base.{
  ltb, if◌then◌else◌, All, ℕ, ◌+◌, ◌≤◌, ◌<◌, String, ◌≡◌, refl, ◌↔◌, ◌⊎◌, inr, Bool, true, false,
  ◌&&◌, List, [], ◌∷◌, arith,
}

pub record LeaseLock : Type 0 where
  pub active : Bool
  pub expires_at : ℕ
  pub ttl : ℕ

unfoldable pub init : ℕ → LeaseLock
init ttl_seconds = record { active = false; expires_at = 0; ttl = ttl_seconds }

-- the clean-up of an expired lease; `cycle_id`, the argument of `acquire`, is not read
expire : ℕ → LeaseLock → LeaseLock
expire now l = if l.active && ltb l.expires_at now then record l { active = false } else l

take_free : ℕ → LeaseLock → LeaseLock × Bool
take_free now l =
    if l.active then (l, false) else (record l { active = true; expires_at = now + l.ttl }, true)

unfoldable pub acquire : String → ℕ → LeaseLock → LeaseLock × Bool
unfolding expire take_free
acquire cycle_id now l = take_free now (expire now l)

unfoldable pub heartbeat : ℕ → LeaseLock → LeaseLock
heartbeat now l = if l.active then record l { expires_at = now + l.ttl } else l

unfoldable pub release : LeaseLock → LeaseLock
release l = record l { active = false; expires_at = 0 }

-- A lease is taken exactly when none is active or the active one has run out.
pub acquire_iff :
    (c : String) (now : ℕ) (l : LeaseLock)
    → ((acquire c now l).1 ≡ true) ↔ ((l.active ≡ false) ⊎ (l.expires_at < now))
unfolding acquire
acquire_iff c now l = ground arith

-- Attempts of other parties, each with its cycle and the time of its clock, and their answers.
unfoldable pub attempts : List (String × ℕ) → LeaseLock → LeaseLock × List Bool
attempts [] l = (l, [])
attempts ((c, t) ∷ calls) l =
    let (l', took) = acquire c t l in
    let (l'', answers) = attempts calls l' in (l'', took ∷ answers)

abbrev pub AllFalse : List Bool → Type 0
AllFalse [] = Unit
AllFalse (b ∷ bs) = (b ≡ false) × AllFalse bs

acquire_held :
    (c : String) (t : ℕ) (l : LeaseLock)
    → l.active ≡ true
    → t ≤ l.expires_at
    → acquire c t l ≡ (l, false)
unfolding acquire
acquire_held c t l a h = ground arith

attempts_held :
    (calls : List (String × ℕ)) (l : LeaseLock)
    → l.active ≡ true
    → All (λ call. call.1 ≤ l.expires_at) calls
    → ((attempts calls l).0 ≡ l) × AllFalse (attempts calls l).1
unfolding attempts
attempts_held [] l a h = (refl, tt)
attempts_held ((c, t) ∷ calls) l a h =
    rw (acquire_held c t l a h.0)
      (let (same, refused) = attempts_held calls l a h.1 in (same, (refl, refused)))

acquire_took :
    (c : String) (t : ℕ) (l : LeaseLock)
    → (acquire c t l).1 ≡ true
    → (acquire c t l).0 ≡ record l { active = true; expires_at = t + l.ttl }
unfolding acquire
acquire_took c t l h = ground arith

-- A lease that was taken at time t excludes every attempt up to t + ttl, without being moved by
-- any of them, and the first attempt after that takes it over.
pub acquire_excludes :
    (c d : String) (t u : ℕ) (l : LeaseLock) (calls : List (String × ℕ))
    → (acquire c t l).1 ≡ true
    → All (λ call. call.1 ≤ t + l.ttl) calls
    → t + l.ttl < u
    → let held = (acquire c t l).0 in
      ((attempts calls held).0 ≡ held)
      × AllFalse (attempts calls held).1
      × ((acquire d u (attempts calls held).0).1 ≡ true)
acquire_excludes c d t u l calls h early late = rw (acquire_took c t l h) (
    let held = record l { active = true; expires_at = t + l.ttl } in
    let (same, refused) = attempts_held calls held refl early in
    (same, refused, rw same ((acquire_iff d u held).1 (inr late))))

-- A heartbeat moves the end of an active lease, and never brings one back that was released.
pub heartbeat_lem :
    (now : ℕ) (l : LeaseLock)
    → ((heartbeat now l).active ≡ l.active)
      × (l.active ≡ true → (heartbeat now l).expires_at ≡ now + l.ttl)
      × (heartbeat now (release l) ≡ release l)
unfolding heartbeat release
heartbeat_lem now l = ground arith

-- The lock does not know its holder: when a lease has run out and another party has taken it, the
-- release of the first party frees the lock under the second, so that a third gets in at once.
pub release_frees_other :
    (a b c : String) (t u v : ℕ) (l : LeaseLock)
    → (acquire a t l).1 ≡ true
    → (acquire b u (acquire a t l).0).1 ≡ true
    → (acquire c v (release (acquire b u (acquire a t l).0).0)).1 ≡ true
unfolding acquire release
release_frees_other a b c t u v l h k = ground arith
