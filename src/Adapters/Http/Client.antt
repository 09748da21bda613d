-- ===== src/Adapters/Http/Client.antt =====
-- adapters/http.py: the life of HTTPClient's httpx client around the request loop. `aclose` is
-- taken to return; what the network answers to a method and an address is given.
use lidenal85_blip.Base.{
  if◌then◌else◌, ℕ, suc, ◌+◌, String, ◌≡◌, refl, Bool, true, false, Option, none, List, [], ◌∷◌,
  arith,
}
use lidenal85_blip.Contracts.Value.{Integer}
use lidenal85_blip.Adapters.Http.{request, Answer, Request}

pub record HttpClient : Type 0 where
  pub timeout_seconds : ℕ
  pub max_retries : ℕ
  pub retry_delay_seconds : ℕ
  pub proxy : Option String
  -- whether `_client` is not None
  pub has_client : Bool

-- The httpx clients that were opened and that were closed.
pub record Connections : Type 0 where
  pub opened : ℕ
  pub closed : ℕ

-- `HTTPClient(timeout_seconds=…)`
unfoldable pub new_client : ℕ → HttpClient
new_client timeout_seconds = record {
  timeout_seconds = timeout_seconds;
  max_retries = 3;
  retry_delay_seconds = 5;
  proxy = none;
  has_client = false;
}

unfoldable pub initialize : HttpClient → Connections → HttpClient × Connections
initialize h c = (record h { has_client = true }, record c { opened = c.opened + 1 })

unfoldable pub close : HttpClient → Connections → HttpClient × Connections
close h c =
    if h.has_client
    then (record h { has_client = false }, record c { closed = c.closed + 1 })
    else (h, c)

-- What a call of `request` does: raise the RuntimeError, or run the loop.
pub data Sent : Type 0 where
  not_initialized : Sent
  sent : Request → Sent

pub data Method : Type 0 where
  get_method post_method : Method

module _ (parse_int : String → Option Integer) (network : Method → String → ℕ → Answer) where
  unfoldable pub send_request : Method → String → HttpClient → Sent
  send_request method url h =
      if h.has_client
      then sent (request parse_int h.max_retries h.retry_delay_seconds (network method url))
      else not_initialized

  unfoldable pub get : String → HttpClient → Sent
  get = send_request get_method

  unfoldable pub post : String → HttpClient → Sent
  post = send_request post_method

-- `async with HTTPClient(…) as client:`, with `__aenter__` and `__aexit__`: the body returns or
-- raises, and the client is closed after either
unfoldable pub with_client {ℓ} :
    {A : Type ℓ} → HttpClient → Connections → (HttpClient → A) → (HttpClient × Connections) × A
unfolding initialize close
with_client h c body =
    let (h', c') = initialize h c in let answer = body h' in (close h' c', answer)

pub data Call : Type 0 where
  initialize_call close_call : Call

unfoldable pub run : List Call → HttpClient × Connections → HttpClient × Connections
unfolding initialize close
run [] s = s
run (initialize_call ∷ calls) (h, c) = run calls (initialize h c)
run (close_call ∷ calls) (h, c) = run calls (close h c)

-- The calls of `initialize` that come while a client is open, by the calls alone.
abbrev pub overwrites : Bool → List Call → ℕ
overwrites holds [] = 0
overwrites false (initialize_call ∷ calls) = overwrites true calls
overwrites true (initialize_call ∷ calls) = suc (overwrites true calls)
overwrites holds (close_call ∷ calls) = overwrites false calls

abbrev pub held : HttpClient → ℕ
held h = if h.has_client then 1 else 0

run-leaks :
    (calls : List Call) (h : HttpClient) (c : Connections)
    → let s = run calls (h, c) in
      s.1.opened + c.closed + held h
      ≡ s.1.closed + c.opened + held s.0 + overwrites h.has_client calls
unfolding run
run-leaks [] h c = omega arith
run-leaks (initialize_call ∷ calls) h c =
    ground (arith, run-leaks calls (initialize h c).0 (initialize h c).1)
run-leaks (close_call ∷ calls) h c = ground (arith, run-leaks calls (close h c).0 (close h c).1)

-- After any calls of `initialize` and `close` on a new client, the httpx clients that are still
-- open are the one that it holds, if it does, and one for each `initialize` that came while one
-- was open, which nothing closes any more.
pub run_leaves_open :
    (calls : List Call) (timeout_seconds : ℕ)
    → let s = run calls (new_client timeout_seconds, record { opened = 0; closed = 0 }) in
      s.1.opened ≡ s.1.closed + held s.0 + overwrites false calls
unfolding new_client
run_leaves_open calls timeout_seconds =
    omega (arith, run-leaks calls (new_client timeout_seconds) (record { opened = 0; closed = 0 }))

-- The block `async with` closes the client that it opens, and no other, whatever its body does,
-- and in it `get` runs the loop with the retries of the client.
pub with_client_closes :
    (parse_int : String → Option Integer) (network : Method → String → ℕ → Answer) (url : String)
    (timeout_seconds : ℕ) (c : Connections)
    → let s = with_client (new_client timeout_seconds) c (get parse_int network url) in
      (s.0.0 ≡ new_client timeout_seconds)
      × (s.0.1 ≡ record { opened = c.opened + 1; closed = c.closed + 1 })
      × (s.1 ≡ sent (request parse_int 3 5 (network get_method url)))
unfolding with_client new_client get send_request
with_client_closes parse_int network url timeout_seconds c = (refl, refl, refl)
