-- ===== src/Tests/Lifespan.antt =====
-- The scheduler's theorems where it compares the running instances with the bound.
use lidenal85_blip.Base.{ltb, ℕ, ◌<◌, ◌≡◌, refl, ◌↔◌, Bool, true, some, [], ◌∷◌, arith}
use lidenal85_blip.Bootstrap.{poll_sources, Totals, completed}
use lidenal85_blip.Bootstrap.Lifespan.{
  started, cycle_status, App, Reach, running, begin_on, startup_begins, job_begins, here, next,
}
use lidenal85_blip.Bootstrap.Lifespan.Overlap.{Reach-IsSound, overlap_mixes, IsSound}

abbrev below : ℕ → ℕ → Bool
below bound n = ltb n bound

below-kept : (bound n : ℕ) → (below bound n ≡ true) ↔ (n < bound)
below-kept bound n = (λ h. ground arith, λ h. ground arith)

abbrev all_counted : Totals
all_counted = record { fetched = 0; delivered = 0; rejected = 0; duplicates = 0; errors = 0 }

overlap_mixes_example :
    (a : App) × Reach below started a
    × (a.jobs ≡ "second" ∷ [])
    × (cycle_status a ≡ record {
      cycle_id = some "second";
      status = completed;
      started_at = some 60;
      finished_at = some 75;
      summary = some all_counted;
    })
unfolding poll_sources
overlap_mixes_example = overlap_mixes below below-kept "first" "second" 0 60 75 [] all_counted refl

-- both cycles run
abbrev both_begun : App
both_begun =
    record (begin_on "second" 60
      (record (begin_on "first" 0 started) { startup = running "first" })) { jobs = "second" ∷ [] }

reached : Reach below started both_begun
unfolding started begin_on
reached =
    next (next here (startup_begins started "first" 0 refl)) (job_begins _ "second" 60 refl refl)

Reach-IsSound_example : IsSound both_begun
Reach-IsSound_example = Reach-IsSound below below-kept reached
