-- ===== src/Adapters/Fetch.antt =====
-- `fetch_surveys` of the three adapters, adapters/prolific, adapters/cloudresearch and
-- adapters/respondent, which differ in their names, addresses and parsers: the API behind the
-- circuit breaker, then the Nimble page. The network's answers are given; headers, addresses and
-- log lines are left out.
pub mod Fallback
pub mod Outage
use lidenal85_blip.Base.{
  eqb, if◌then◌else◌, length, ℕ, String, Bool, true, false, ◌&&◌, Option, List, [], ◌∷◌, ◌++◌,
}
use lidenal85_blip.Contracts.Value.{Integer, Value, str}
use lidenal85_blip.Contracts.Floats.{
  Floats, Raised, Outcome, other_error, ok, raise, ◌>>=◌, type_error,
}
use lidenal85_blip.Contracts.Survey.{Survey}
use lidenal85_blip.Adapters.Items.{raise_on, is_true, Python}
use lidenal85_blip.Adapters.Nimble.{fetch_html, Reply}
use lidenal85_blip.Adapters.Prolific
use lidenal85_blip.Adapters.CloudResearch
use lidenal85_blip.Adapters.Respondent
use lidenal85_blip.Adapters.Http.{Answer, Response, AdapterError, Ending, returned, raised, request}
use lidenal85_blip.Hardening.CircuitBreaker
use lidenal85_blip.Hardening.CircuitBreaker.{
  CircuitBreaker, CircuitBreakerConfig, OpenError, CallResult, call, rejected, value, exception,
}

-- The blobs of JSON on a page, as `json.loads` reads them; none where it raises.
abbrev pub Blobs : Type 0 → Type 0
Blobs F = List (Option (Value F))

pub record Platform (N : Floats) : Type 0 where
  pub source : String
  pub parse_api : Value N.Float → Outcome (List (Survey N.Float))
  pub parse_html : Blobs N.Float → List (Survey N.Float)

-- What one fetch meets: the answers to the attempts of the request, `response.json()`, whether
-- there is a key for Nimble and what the request to it meets, the blobs that the adapter's
-- regular expression finds in a page, and the texts of two kinds of exceptions.
pub record Network (N : Floats) : Type 0 where
  pub answers : ℕ → Answer
  pub parse_int : String → Option Integer
  pub json : Response → Outcome (Value N.Float)
  pub nimble_enabled : Bool
  pub reply : Reply N.Float
  pub blobs : String → Blobs N.Float
  pub adapter_error_text : AdapterError → String
  pub open_error_text : OpenError → String

pub data Stage : Type 0 where
  api nimble : Stage

pub record FetchError : Type 0 where
  pub stage : Stage
  pub error : String

pub record AdapterResult (F : Type 0) : Type 0 where
  pub source : String
  pub surveys : List (Survey F)
  pub errors : List FetchError
  pub total_fetched : ℕ

-- The breaker that each adapter is built with.
abbrev pub breaker_config : CircuitBreakerConfig
breaker_config = record {
  failure_threshold = 3;
  timeout_seconds = 120;
  half_open_max_attempts = 3;
  success_threshold = 2;
}

abbrev pub is_empty {ℓ} : {A : Type ℓ} → List A → Bool
is_empty [] = true
is_empty (_ ∷ _) = false

module _ (N : Floats) (py : Python N) where
  open N use {Float}

  module _ (platform : Platform N) (net : Network N) where
    open platform use {source, parse_api, parse_html}
    open net use {
      answers, parse_int, json, nimble_enabled, reply, blobs, adapter_error_text, open_error_text,
    }

    -- the client's response or its exception; `HTTPClient` has 3 retries, 5 seconds apart
    after_request : Ending → Outcome (List (Survey Float))
    after_request (raised e) =
        raise (record { class_of = other_error; text = adapter_error_text e })
    after_request (returned r) = if eqb r.status_code 200 then (json r >>= parse_api) else ok []

    -- `_fetch_via_api`
    unfoldable pub fetch_via_api : Outcome (List (Survey Float))
    unfolding after_request
    fetch_via_api = after_request (request parse_int 3 5 answers).ending

    -- `re.findall` takes a text only
    parse_page : Value Float → Outcome (List (Survey Float))
    parse_page (str page) = ok (parse_html (blobs page))
    parse_page page = raise_on N py type_error page

    -- `_fetch_via_nimble`
    unfoldable pub fetch_via_nimble : Outcome (List (Survey Float))
    unfolding parse_page
    fetch_via_nimble =
        let html = fetch_html N py nimble_enabled reply in
        if is_true N py html then parse_page html else ok []

    guarded : Outcome (List (Survey Float)) → CircuitBreaker.Outcome (List (Survey Float)) Raised
    guarded (ok surveys) = CircuitBreaker.value surveys
    guarded (raise e) = CircuitBreaker.exception e

    -- the `try` around `self._cb.async_call`
    api_result : CallResult (List (Survey Float)) Raised → List (Survey Float) × List FetchError
    api_result (CircuitBreaker.returned surveys) = (surveys, [])
    api_result (CircuitBreaker.raised e) = ([], (record { stage = api; error = e.text }) ∷ [])
    api_result (CircuitBreaker.rejected e) =
        ([], (record { stage = api; error = open_error_text e }) ∷ [])

    -- the `try` around `_fetch_via_nimble`
    nimble_result :
        List FetchError → Outcome (List (Survey Float)) → List (Survey Float) × List FetchError
    nimble_result errors (ok surveys) = (surveys, errors)
    nimble_result errors (raise e) =
        ([], errors ++ (record { stage = nimble; error = e.text }) ∷ [])

    -- from the API's surveys on
    with_fallback : List (Survey Float) × List FetchError → List (Survey Float) × List FetchError
    with_fallback (surveys, errors) =
        if is_empty surveys && nimble_enabled
        then nimble_result errors fetch_via_nimble
        else (surveys, errors)

    result_of : List (Survey Float) × List FetchError → AdapterResult Float
    result_of (surveys, errors) = record {
      source = source;
      surveys = surveys;
      errors = errors;
      total_fetched = length surveys;
    }

    -- `fetch_surveys`, with the two readings of the breaker's clock
    unfoldable pub fetch_surveys : ℕ → ℕ → CircuitBreaker → CircuitBreaker × AdapterResult Float
    unfolding guarded api_result nimble_result with_fallback result_of
    fetch_surveys now later b =
        let (b', answer) = call (guarded fetch_via_api) now later b in
        (b', result_of (with_fallback (api_result answer)))

  -- The three platforms.
  unfoldable pub prolific : Platform N
  prolific = record {
    source = "prolific";
    parse_api = Prolific.parse_api N py;
    parse_html = Prolific.parse_html N py;
  }

  unfoldable pub cloudresearch : Platform N
  cloudresearch = record {
    source = "cloudresearch";
    parse_api = CloudResearch.parse_api N py;
    parse_html = CloudResearch.parse_html N py;
  }

  unfoldable pub respondent : Platform N
  respondent = record {
    source = "respondent";
    parse_api = Respondent.parse_api N py;
    parse_html = Respondent.parse_html N py;
  }

  -- `fetch_surveys` of the three classes
  unfoldable pub fetch_prolific :
      Network N → ℕ → ℕ → CircuitBreaker → CircuitBreaker × AdapterResult Float
  fetch_prolific = fetch_surveys prolific

  unfoldable pub fetch_cloudresearch :
      Network N → ℕ → ℕ → CircuitBreaker → CircuitBreaker × AdapterResult Float
  fetch_cloudresearch = fetch_surveys cloudresearch

  unfoldable pub fetch_respondent :
      Network N → ℕ → ℕ → CircuitBreaker → CircuitBreaker × AdapterResult Float
  fetch_respondent = fetch_surveys respondent
