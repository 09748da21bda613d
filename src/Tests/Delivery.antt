-- ===== src/Tests/Delivery.antt =====
-- The retry theorems at small runs.
use lidenal85_blip.Base.{ℕ, zero, suc, ◌+◌, ◌<◌, ◌≡◌, false, some, arith}
use lidenal85_blip.Delivery.Retry.{
  default_config, goes_on, execute, Retried, execute_ends, Attempt, returned, failed,
}

-- an operation that fails once and then returns 7
abbrev second_time : ℕ → Attempt ℕ
second_time zero =
    failed (record { is_value_error = false; is_forbidden = false; message = "HTTP 502" })
second_time (suc n) = returned 7

execute_ends_example :
    (last : ℕ) × (last < 3)
    × Retried default_config second_time 0 last
    × (goes_on default_config last (second_time last) ≡ false)
    × (execute default_config second_time
        ≡ some (record { outcome = second_time last; attempts_made = last + 1 }))
execute_ends_example = execute_ends default_config second_time (omega arith)
