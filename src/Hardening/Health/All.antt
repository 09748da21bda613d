-- ===== src/Hardening/Health/All.antt =====
-- What `check_all` returns and records.
use lidenal85_blip.Base.{
  if◌then◌else◌, string_eq, length, ℕ, ◌+◌, String, ◌≡◌, refl, ap, ◌∙◌, Bool, false, some, [], ◌∷◌,
  arith,
}
use lidenal85_blip.Base.Dict.{Dict, keys}
use lidenal85_blip.Contracts.Value.{natural}
use lidenal85_blip.Contracts.Floats.{Outcome, Floats, ok, raise}
use lidenal85_blip.Adapters.Items.{Python}
use lidenal85_blip.Hardening.Metrics.{Registry, gauge, get_gauge_value}
use lidenal85_blip.Hardening.Metrics.Log.{set-get_gauge_value}
use lidenal85_blip.Hardening.Health.{
  is_healthy, result_of, run_checks, healthy_count, check_all, HealthCheckResult,
}

module _ {F : Type 0} where
  -- the checks that return a healthy result
  abbrev pub passes : Outcome (HealthCheckResult F) → Bool
  passes (ok r) = is_healthy r.status
  passes (raise e) = false

  abbrev pub count_passing : Dict String (Outcome (HealthCheckResult F)) → ℕ
  count_passing [] = 0
  count_passing ((name, check) ∷ checks) = (if passes check then 1 else 0) + count_passing checks

  passes_result :
      (name : String) (check : Outcome (HealthCheckResult F))
      → is_healthy (result_of name check).status ≡ passes check
  unfolding result_of
  passes_result name (ok r) = refl
  passes_result name (raise e) = refl

  run_checks-keys :
      (checks : Dict String (Outcome (HealthCheckResult F)))
      → (keys (run_checks checks) ≡ keys checks)
        × (healthy_count (run_checks checks) ≡ count_passing checks)
        × (length (run_checks checks) ≡ length checks)
  unfolding run_checks keys healthy_count
  run_checks-keys [] = (refl, refl, refl)
  run_checks-keys ((name, check) ∷ checks) =
      let (same, passing, many) = run_checks-keys checks in
      (ap (◌∷◌ name) same, ground (arith, passing, passes_result name check), omega (arith, many))

module _ (N : Floats) (py : Python N) where
  open N use {Float, of_integer}

  -- Every registered check has a result, also where checks raise; the two gauges then hold how
  -- many checks were healthy, one that raised not among them, and how many there are.
  pub check_all_lem :
      (checks : Dict String (Outcome (HealthCheckResult Float))) (metrics : Registry Float)
      → let (metrics', results) = check_all N py checks metrics in
        (keys results ≡ keys checks)
        × (get_gauge_value "health_check_healthy_count" metrics'
            ≡ some (of_integer (natural (count_passing checks))))
        × (get_gauge_value "health_check_total" metrics'
            ≡ some (of_integer (natural (length checks))))
  unfolding check_all string_eq
  check_all_lem checks metrics =
      let (same, passing, many) = run_checks-keys checks in
      let results = run_checks checks in
      let healthy_now : Float = of_integer (natural (healthy_count results)) in
      let total : Float = of_integer (natural (length results)) in
      let first : String = "health_check_healthy_count" in
      let second : String = "health_check_total" in
      let metrics' : Registry Float = gauge first healthy_now [] metrics in
      (
        same,
        set-get_gauge_value second first total [] metrics'
            ∙ set-get_gauge_value first first healthy_now [] metrics
            ∙ ap (λ (n : ℕ). some (of_integer (natural n))) passing,
        set-get_gauge_value second second total [] metrics'
            ∙ ap (λ (n : ℕ). some (of_integer (natural n))) many,
      )
