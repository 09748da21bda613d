-- ===== src/Runtime/Shutdown.antt =====
-- runtime/shutdown.py and runtime/backpressure.py. The clock is read in ticks; what the buffer's
-- `size` answers in the turns of the wait is given.
use lidenal85_blip.Base.{
  ltb, eqb, Bool-cases, if◌then◌else◌, dec_lt, ℕ, zero, suc, ◌+◌, ◌≤◌, ◌<◌, ◌≡◌, refl, ap, inl, inr,
  Bool, true, false, not, Option, none, some, arith,
}

pub record ShutdownController : Type 0 where
  pub is_shutdown : Bool
  pub is_draining : Bool

unfoldable pub init : ShutdownController
init = record { is_shutdown = false; is_draining = false }

unfoldable pub initiate_shutdown : ShutdownController → ShutdownController
initiate_shutdown c = record { is_shutdown = true; is_draining = true }

-- The `while` of `wait_for_drain`, from the turn `i`; `times i` is the clock at the test, `sizes
-- i` the buffer's size after it. Fuel is the turns left.
unfoldable pub loop :
    ℕ → ℕ → (ℕ → ℕ) → (ℕ → ℕ) → ℕ → ℕ → ShutdownController → Option (ShutdownController × Bool)
loop start timeout times sizes zero i c = none
loop start timeout times sizes (suc fuel) i c =
    let rest = loop start timeout times sizes fuel (i + 1) c in
    if ltb (times i) (start + timeout)
    then (if eqb (sizes i) 0 then some (record c { is_draining = false }, true) else rest)
    else some (c, false)

unfoldable pub wait_for_drain :
    ℕ → ℕ → (ℕ → ℕ) → (ℕ → ℕ) → ShutdownController → Option (ShutdownController × Bool)
wait_for_drain start timeout times sizes c = loop start timeout times sizes (timeout + 1) 0 c

-- what a wait that ends says: drained in a turn before the limit, and the flag with it, or not
-- drained in any turn before the one at which the clock is past the limit
abbrev pub EndsAt :
    ℕ → ℕ → (ℕ → ℕ) → (ℕ → ℕ) → ShutdownController → ℕ → ShutdownController × Bool → Type 0
EndsAt start timeout times sizes c j (c', true) =
    (sizes j ≡ 0) × (times j < start + timeout) × (c' ≡ record c { is_draining = false })
EndsAt start timeout times sizes c j (c', false) = (start + timeout ≤ times j) × (c' ≡ c)

same_turn : (i k : ℕ) → i ≤ k → ¬ (i < k) → i ≡ k
same_turn i k low here = omega arith

loop_ends :
    (start timeout : ℕ) (times sizes : ℕ → ℕ) (fuel i : ℕ) (c : ShutdownController)
    → ((j : ℕ) → start + j ≤ times j)
    → i ≤ timeout
    → timeout < i + fuel
    → (r : ShutdownController × Bool) × (loop start timeout times sizes fuel i c ≡ some r)
      × ((j : ℕ) × EndsAt start timeout times sizes c j r × ((k : ℕ) → i ≤ k → k < j → 0 < sizes k))
unfolding loop
loop_ends start timeout times sizes zero i c passes early enough = absurd (omega arith)
loop_ends start timeout times sizes (suc fuel) i c passes early enough =
    elim (Bool-cases (ltb (times i) (start + timeout))) [
      | inl in_time ↦ elim (Bool-cases (eqb (sizes i) 0)) [
        | inl drained ↦ (
          (record c { is_draining = false }, true),
          rw (in_time, drained) refl,
          (i, (ground arith, ground arith, refl), λ k low high. absurd (omega arith)),
        )
        | inr filled ↦
            let (r, ends, (j, how, before)) =
              loop_ends start timeout times sizes fuel (i + 1) c passes (ground (arith, passes i))
                (omega arith) in
            (
              r,
              rw (in_time, filled) ends,
              (
                j,
                how,
                λ k low high. elim (dec_lt i k) [
                  | yes above ↦ before k (omega arith) high
                  | no here ↦ ground (arith, ap sizes (same_turn i k low here))
                ],
              ),
            )
      ]
      | inr over ↦
          ((c, false), rw over refl, (i, (ground arith, refl), λ k low high. absurd (omega arith)))
    ]

-- A wait for the buffer ends, if the clock passes a tick at least in each turn: with true in a
-- turn before the limit in which the buffer is empty, the flag reset, or with false in a turn in
-- which the clock is at the limit, nothing changed; and in all turns before the last the buffer
-- was not empty.
pub wait_for_drain_ends :
    (start timeout : ℕ) (times sizes : ℕ → ℕ) (c : ShutdownController)
    → ((j : ℕ) → start + j ≤ times j)
    → (r : ShutdownController × Bool) × (wait_for_drain start timeout times sizes c ≡ some r)
      × ((j : ℕ) × EndsAt start timeout times sizes c j r × ((k : ℕ) → k < j → 0 < sizes k))
unfolding wait_for_drain
wait_for_drain_ends start timeout times sizes c passes =
    let (r, ends, (j, how, before)) =
      loop_ends start timeout times sizes (timeout + 1) 0 c passes (omega arith) (omega arith) in
    (r, ends, (j, how, λ k below. before k (omega arith) below))

-- `BackpressureManager`: the buffer is kept, and not read.
pub record BackpressureManager : Type 0 where
  pub paused : Bool

unfoldable pub can_accept : BackpressureManager → Bool
can_accept m = not m.paused

unfoldable pub trigger : BackpressureManager → BackpressureManager
trigger m = record { paused = true }

unfoldable pub release : BackpressureManager → BackpressureManager
release m = record { paused = false }
