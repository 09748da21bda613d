-- ===== src/Tests/Runtime.antt =====
-- The in-process runtime's theorems at small runs.
use lidenal85_blip.Base.{◌++◌}
use lidenal85_blip.Base.{string_eq, ℕ, ◌≡◌, refl, true, some, List, [], ◌∷◌}
use lidenal85_blip.Contracts.Value.{Value, null, str, dict, end, field}
use lidenal85_blip.Runtime.EventBuffer.Fifo.{
  push_call, IsFifo, run as run_buffer, start, run-IsFifo,
}
use lidenal85_blip.Runtime.CircuitBreaker.{CircuitBreaker, closed, allow}
use lidenal85_blip.Runtime.Wrapped.{fetch, envelopes, refusals, fetch_validates}

run-IsFifo_example :
    IsFifo {A = ℕ} 2 (run_buffer (push_call 7 ∷ push_call 8 ∷ push_call 9 ∷ []) (start 2))
run-IsFifo_example = run-IsFifo 2 (push_call 7 ∷ push_call 8 ∷ push_call 9 ∷ [])

abbrev healthy : CircuitBreaker
healthy = record {
  failure_threshold = 2;
  reset_timeout = 30;
  failures = 1;
  opened_at = 0;
  state = closed;
}

healthy_allows : (allow 5 healthy).1 ≡ true
unfolding allow
healthy_allows = refl

abbrev envelope : Value ℕ
envelope = dict (
    field "source" (str "prolific")
      (field "schema_version" (str "v1") (field "payload" (dict end) end)))

abbrev items : List (Value ℕ)
items = envelope ∷ dict end ∷ null ∷ []

fetch_validates_example :
    fetch (some items) 5 6 healthy []
    ≡ (record healthy { failures = 0; state = closed }, [] ++ refusals items, envelopes items)
fetch_validates_example = fetch_validates items 5 6 healthy [] healthy_allows
