-- ===== src/Runtime/IdempotencyGate/Window.antt =====
-- runtime/idempotency.py: the window in which a key is refused, with other keys checked in
-- between.
use lidenal85_blip.Base.{
  Option-cases, if◌then◌else◌, contains, string_eq, All, ℕ, ◌+◌, ◌≤◌, String, ◌≡◌, refl, ◌∙◌, ◌↔◌,
  inl, inr, true, false, Option, none, some, List, [], ◌∷◌, arith,
}
use lidenal85_blip.Base.Dict.{
  Dict, lookup, insert, erase, lookup-nil, lookup-insert, lookup-erase, has, lookup-insert_self,
}
use lidenal85_blip.Runtime.IdempotencyGate.{
  is_expired, expired, erase_all, cleanup, IdempotencyGate, check_and_set,
}

abbrev pub DistinctKeys : Dict String ℕ → Type 0
DistinctKeys [] = Unit
DistinctKeys ((k, _) ∷ d) = (lookup k d ≡ none) × DistinctKeys d

insert-DistinctKeys :
    (k : String) (v : ℕ) (d : Dict String ℕ) → DistinctKeys d → DistinctKeys (insert k v d)
unfolding insert
insert-DistinctKeys k v [] _ = (lookup-nil k, tt)
insert-DistinctKeys k v ((j, w) ∷ d) (fresh, u) =
    ground (arith, insert-DistinctKeys k v d u, lookup-insert j k v d)

erase-DistinctKeys : (k : String) (d : Dict String ℕ) → DistinctKeys d → DistinctKeys (erase k d)
unfolding erase
erase-DistinctKeys k [] _ = tt
erase-DistinctKeys k ((j, w) ∷ d) (fresh, u) =
    ground (arith, erase-DistinctKeys k d u, lookup-erase j k d)

erase_all-DistinctKeys :
    (ks : List String) (d : Dict String ℕ) → DistinctKeys d → DistinctKeys (erase_all ks d)
unfolding erase_all
erase_all-DistinctKeys [] d u = u
erase_all-DistinctKeys (k ∷ ks) d u =
    erase_all-DistinctKeys ks (erase k d) (erase-DistinctKeys k d u)

lookup-erase_all :
    (j : String) (ks : List String) (d : Dict String ℕ)
    → lookup j (erase_all ks d) ≡ (if contains ks j then none else lookup j d)
unfolding erase_all
lookup-erase_all j [] d = refl
lookup-erase_all j (k ∷ ks) d =
    ground (arith, lookup-erase_all j ks (erase k d), lookup-erase j k d)

not_expired :
    (ttl now : ℕ) (k : String) (d : Dict String ℕ)
    → lookup k d ≡ none
    → contains (expired ttl now d) k ≡ false
unfolding expired lookup
not_expired ttl now k [] h = refl
not_expired ttl now k ((j, w) ∷ d) h = ground (arith, not_expired ttl now k d)

-- What `lookup` finds in the store after its clean-up.
abbrev fresh_only : ℕ → ℕ → Option ℕ → Option ℕ
fresh_only ttl now none = none
fresh_only ttl now (some v) = if is_expired ttl now v then none else some v

contains-expired :
    (ttl now v : ℕ) (k : String) (d : Dict String ℕ)
    → DistinctKeys d
    → lookup k d ≡ some v
    → contains (expired ttl now d) k ≡ is_expired ttl now v
unfolding expired lookup
contains-expired ttl now v k [] u h = cc
contains-expired ttl now v k ((j, w) ∷ d) (fresh, u) h =
    ground (arith, contains-expired ttl now v k d u, not_expired ttl now k d)

lookup-cleanup :
    (now : ℕ) (k : String) (g : IdempotencyGate)
    → DistinctKeys g.store
    → lookup k (cleanup now g).store ≡ fresh_only g.ttl_seconds now (lookup k g.store)
unfolding cleanup
lookup-cleanup now k g u = elim (Option-cases (lookup k g.store)) [
  | inl e ↦ ground (arith, lookup-erase_all k (expired g.ttl_seconds now g.store) g.store)
  | inr (v, e) ↦ ground (
    arith,
    lookup-erase_all k (expired g.ttl_seconds now g.store) g.store,
    contains-expired g.ttl_seconds now v k g.store u e,
  )
]

cleanup-DistinctKeys :
    (now : ℕ) (g : IdempotencyGate) → DistinctKeys g.store → DistinctKeys (cleanup now g).store
unfolding cleanup
cleanup-DistinctKeys now g u = erase_all-DistinctKeys (expired g.ttl_seconds now g.store) g.store u

check_and_set-DistinctKeys :
    (k : String) (t t' : ℕ) (g : IdempotencyGate)
    → DistinctKeys g.store
    → DistinctKeys (check_and_set k t t' g).0.store
unfolding check_and_set
check_and_set-DistinctKeys k t t' g u = ground (
  arith,
  cleanup-DistinctKeys t g u,
  insert-DistinctKeys k t' (cleanup t g).store (cleanup-DistinctKeys t g u),
)

ttl-check_and_set :
    (k : String) (t t' : ℕ) (g : IdempotencyGate)
    → (check_and_set k t t' g).0.ttl_seconds ≡ g.ttl_seconds
unfolding check_and_set cleanup
ttl-check_and_set k t t' g = ground arith

-- The gate refuses a key exactly when it holds a time of the key that has not expired.
pub refuses_iff :
    (k : String) (t t' : ℕ) (g : IdempotencyGate)
    → DistinctKeys g.store
    → ((check_and_set k t t' g).1 ≡ false)
      ↔ ((v : ℕ) × (lookup k g.store ≡ some v) × (t ≤ v + g.ttl_seconds))
unfolding check_and_set has
refuses_iff k t t' g u = elim (Option-cases (lookup k g.store)) [
  | inl e ↦ (λ h. cc (lookup-cleanup t k g u), λ h. cc)
  | inr (v, e) ↦ (
    λ h. (v, e, ground (arith, lookup-cleanup t k g u)),
    λ h. ground (arith, lookup-cleanup t k g u),
  )
]

-- What a call of the gate leaves of a key that has not expired at its time.
lookup-check_and_set :
    (j k : String) (t t' v : ℕ) (g : IdempotencyGate)
    → DistinctKeys g.store
    → lookup j g.store ≡ some v
    → t ≤ v + g.ttl_seconds
    → lookup j (check_and_set k t t' g).0.store ≡ some v
unfolding check_and_set has
lookup-check_and_set j k t t' v g u e h =
    ground (arith, lookup-cleanup t j g u, lookup-insert j k t' (cleanup t g).store)

-- A sequence of calls, each with its two readings of the clock.
unfoldable pub run : List (String × ℕ × ℕ) → IdempotencyGate → IdempotencyGate
run [] g = g
run ((k, t, t') ∷ calls) g = run calls (check_and_set k t t' g).0

run_keeps :
    (j : String) (v ttl : ℕ) (calls : List (String × ℕ × ℕ)) (g : IdempotencyGate)
    → DistinctKeys g.store
    → lookup j g.store ≡ some v
    → g.ttl_seconds ≡ ttl
    → All (λ call. call.1 ≤ v + ttl) calls
    → DistinctKeys (run calls g).store
      × (lookup j (run calls g).store ≡ some v)
      × ((run calls g).ttl_seconds ≡ ttl)
unfolding run
run_keeps j v ttl [] g u e same h = (u, e, same)
run_keeps j v ttl ((k, t, t') ∷ calls) g u e same h =
    run_keeps j v ttl calls (check_and_set k t t' g).0 (check_and_set-DistinctKeys k t t' g u)
      (lookup-check_and_set j k t t' v g u e (omega (arith, h.0)))
      (ttl-check_and_set k t t' g ∙ same) h.1

accepted_stores :
    (k : String) (t t' : ℕ) (g : IdempotencyGate)
    → (check_and_set k t t' g).1 ≡ true
    → lookup k (check_and_set k t t' g).0.store ≡ some t'
unfolding check_and_set
accepted_stores k t t' g h = ground (arith, lookup-insert_self k t' (cleanup t g).store)

-- A key that the gate let in at time t' is refused up to t' + ttl and let in again after that,
-- whatever keys are checked in between at times up to t' + ttl.
pub check_and_set_window :
    (k : String) (t t' u u' : ℕ) (calls : List (String × ℕ × ℕ)) (g : IdempotencyGate)
    → DistinctKeys g.store
    → (check_and_set k t t' g).1 ≡ true
    → All (λ call. call.1 ≤ t' + g.ttl_seconds) calls
    → let later = run calls (check_and_set k t t' g).0 in
      ((check_and_set k u u' later).1 ≡ false) ↔ (u ≤ t' + g.ttl_seconds)
check_and_set_window k t t' u u' calls g d h between =
    let first = (check_and_set k t t' g).0 in
    let (d', e, ttl) =
      run_keeps k t' g.ttl_seconds calls first (check_and_set-DistinctKeys k t t' g d)
        (accepted_stores k t t' g h) (ttl-check_and_set k t t' g) between in
    let iff = refuses_iff k u u' (run calls first) d' in
    (λ refused. ground (arith, iff.0 refused), λ early. iff.1 (t', e, ground arith))
