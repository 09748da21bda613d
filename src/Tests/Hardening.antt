-- ===== src/Tests/Hardening.antt =====
-- The theorems of the rate limiter, the metrics, the health checks, the shutdowns and the replay
-- of dead letters at small runs.
use lidenal85_blip.Base.{
  if◌then◌else◌, ◌==◌, string_eq, All, ℕ, ◌+◌, ◌-◌, ◌*◌, ◌≤◌, ◌<◌, String, ◌≡◌, refl, Bool, true,
  none, some, List, [], ◌∷◌, arith,
}
use lidenal85_blip.Base.Dict.{Dict}
use lidenal85_blip.Base.Int.{pos, ◌+ℤ◌}
use lidenal85_blip.Contracts.Value.{Value, str}
use lidenal85_blip.Contracts.Floats.{Outcome, other_error, ok, raise}
use lidenal85_blip.Contracts.Survey.{DlqItem}
use lidenal85_blip.Redis.{ListStore}
use lidenal85_blip.Dlq.Fetch.{
  replay_by_cycle, cycle_pattern, replay_fetched, replay_items, fetch_by_cycle, read_keys,
  read_items, read_one, unless_logged, lrange,
}
use lidenal85_blip.Dlq.Fetch.Limits.{replay_by_cycle_empties}
use lidenal85_blip.Hardening.RateLimiter.{
  RateLimiter, Surroundings, parts, turn, take_tokens, refill, smaller, gain, acquire,
  default_config, init,
}
use lidenal85_blip.Hardening.RateLimiter
use lidenal85_blip.Hardening.RateLimiter.Rate.{run_turns, rate_is_kept}
use lidenal85_blip.Hardening.RateLimiter.Waiting.{acquire_never_returns, acquire_ends}
use lidenal85_blip.Hardening.Metrics.Log.{Call, count_call, gauge_call, observe_call, reset_call}
use lidenal85_blip.Hardening.Health.{HealthCheckResult, healthy}
use lidenal85_blip.Runtime.Shutdown.{
  ShutdownController, EndsAt, wait_for_drain, wait_for_drain_ends,
}
use lidenal85_blip.Tests.Queue.{plain_text}
use lidenal85_blip.Tests.Store.{list_memory, list_memory-IsListLawful}

-- a limiter of the default rate, with ten ticks to the second; three calls before the last one
abbrev earlier : List (ℕ × ℕ)
earlier = (5, 4) ∷ (3, 9) ∷ (20, 6) ∷ []

rate_is_kept_example :
    parts 10 ((run_turns 10 earlier (RateLimiter.init 10 default_config 0)).1 + 1) + 0 * 60
    ≤ parts 10 10 + 30 * 60
unfolding parts turn run_turns take_tokens refill smaller gain RateLimiter.init ◌+ℤ◌
rate_is_kept_example = rate_is_kept 10 default_config 0 30 1 earlier refl

abbrev alone : Surroundings 10
alone = record { at_refill = λ i. i; at_test = λ i. i; meanwhile = λ i r. r }

abbrev full : RateLimiter
full = record { config = default_config; tokens = pos 6000; last_refill = 0 }

acquire_never_returns_example : acquire 10 alone 11 none 0 1000 full ≡ none
acquire_never_returns_example =
    acquire_never_returns 10 alone 11 0 1000 full (λ i r. refl) (omega arith) (omega arith)

acquire_ends_example :
    (r : RateLimiter × Bool) × (acquire 10 alone 11 (some 3) 0 (3 + 1) full ≡ some r)
acquire_ends_example = acquire_ends 10 alone 11 3 0 full (λ j. omega arith)

abbrev calls : List (Call ℕ)
calls =
    count_call "a" 100 []
    ∷ gauge_call "b" 7 []
    ∷ count_call "a" 200 []
    ∷ reset_call
    ∷ observe_call "a" 1 []
    ∷ []

abbrev checks : Dict String (Outcome (HealthCheckResult ℕ))
checks =
    ("redis", ok (record { status = healthy; component = "redis"; details = [] }))
    ∷ ("postgres", raise (record { class_of = other_error; text = "refused" }))
    ∷ []

abbrev draining : ShutdownController
draining = record { is_shutdown = true; is_draining = true }

wait_for_drain_ends_example :
    (r : ShutdownController × Bool) × (wait_for_drain 0 10 (λ j. j) (λ j. 2 - j) draining ≡ some r)
    × ((j : ℕ) × EndsAt 0 10 (λ k. k) (λ k. 2 - k) draining j r × ((k : ℕ) → k < j → 0 < 2 - k))
wait_for_drain_ends_example =
    wait_for_drain_ends 0 10 (λ j. j) (λ j. 2 - j) draining (λ j. omega arith)

-- a server with two dead letters of one cycle
abbrev letters : ListStore (Value ℕ)
letters = list_memory (Value ℕ)

abbrev two_letters : String → List (Value ℕ)
two_letters key = if key == "dlq:c1:prolific" then str "a" ∷ str "b" ∷ [] else []

abbrev the_key : String → (String → List (Value ℕ)) → List String
the_key pattern d = "dlq:c1:prolific" ∷ []

abbrev letter : Value ℕ → Outcome (DlqItem ℕ)
letter v = ok (record {
  cycle_id = "c1";
  source = "prolific";
  payload_type = "survey";
  raw_payload = [];
  reason = "text";
  failed_at = 0;
})

replay_by_cycle_empties_example :
    (2 < 200)
    × All
        (λ key.
          letters.items key (replay_by_cycle plain_text letters the_key letter "c1" two_letters).0
          ≡ [])
        (the_key (cycle_pattern "c1") two_letters)
unfolding replay_by_cycle replay_fetched replay_items fetch_by_cycle read_keys read_items read_one
    unless_logged lrange string_eq
replay_by_cycle_empties_example =
    replay_by_cycle_empties plain_text letters the_key letter (list_memory-IsListLawful (Value ℕ))
      "c1" two_letters {successful = 2} (λ e. cc) refl (omega arith)
