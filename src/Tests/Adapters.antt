-- ===== src/Tests/Adapters.antt =====
-- The theorems of the adapters at small runs.
use lidenal85_blip.Base.{
  eqb, if◌then◌else◌, string_eq, length, All, ℕ, ◌+◌, String, ◌≡◌, refl, inr, true, false, ◌&&◌,
  none, some, [], ◌∷◌, arith,
}
use lidenal85_blip.Base.Dict.{lookup}
use lidenal85_blip.Contracts.Value.{
  entries, is_serialisable, Value, Items, Fields, natural, null, int, str, list, dict, nil, cons,
  end, field,
}
use lidenal85_blip.Contracts.Floats.{Raised, Outcome, value_error, other_error, ok, raise}
use lidenal85_blip.Contracts.Pydantic.{to_float, to_int}
use lidenal85_blip.Adapters.Http.{response}
use lidenal85_blip.Adapters.Items.{get, Python, is_true}
use lidenal85_blip.Adapters.Nimble.{failed}
use lidenal85_blip.Adapters.Prolific.{parse_api, payout_of, duration_of, places}
use lidenal85_blip.Adapters.Prolific.Studies.{null_filters_lose_all}
use lidenal85_blip.Adapters.Fetch.{
  Network, prolific, fetch_surveys, fetch_via_api, fetch_via_nimble, breaker_config, is_empty,
}
use lidenal85_blip.Adapters.Fetch.Fallback.{fetch_surveys_lem, given, one_if_raised}
use lidenal85_blip.Adapters.Fetch.Outage.{outage_spares_api, down_thrice, IsDown}
use lidenal85_blip.Adapters.Registry.{Registry, prolific_adapter}
use lidenal85_blip.Adapters.Registry.Rebuilt.{poll_cycles, poll_cycles_never_open, NeverOpens}
use lidenal85_blip.Adapters.Session.{World}
use lidenal85_blip.Adapters.Session.Sharing.{elsewhere, save_session-get}
use lidenal85_blip.Adapters.Browser.{Calls, PlaywrightBrowser, initialize, get_context}
use lidenal85_blip.Adapters.Browser
use lidenal85_blip.Adapters.Browser.Page.{Visit, browser_page, browser_page_ends, unbound}
use lidenal85_blip.Adapters.Browser.Failing.{all_well}
use lidenal85_blip.Hardening.CircuitBreaker.{CircuitBreaker, init}
use lidenal85_blip.Bootstrap.{LastCycle, idle, completed, no_totals}
use lidenal85_blip.Bootstrap.Outage.{Surroundings, poll_all, outage_completes}
use lidenal85_blip.Tests.Data.{settings, yes_to_all, cents, construct}
use lidenal85_blip.Tests.Store.{memory, memory-IsLawful, nothing, Memory}
use lidenal85_blip.Tests.Queue.{plain_text, plain_text-IsLawful}

abbrev pub python : Python cents
python = record {
  construct = construct;
  str_of = λ v. "text";
  is_zero = λ x. eqb x 0;
  text_of = λ c v. "error";
  timestamp = "1700000000";
}

abbrev no_json : Outcome (Value ℕ)
no_json = raise (record { class_of = value_error; text = "no JSON" })

-- a platform that answers 503, and no key for Nimble
abbrev down : Network cents
down = record {
  answers = λ i. response (record { status_code = 503; retry_after = none; text = "" });
  parse_int = λ s. none;
  json = λ r. no_json;
  nimble_enabled = false;
  reply = failed;
  blobs = λ s. [];
  adapter_error_text = λ e. "down";
  open_error_text = λ e. "open";
}

down-IsDown : IsDown cents python (prolific cents python) down
unfolding IsDown
down-IsDown i = inr (omega arith)

abbrev opened : CircuitBreaker
opened =
    down_thrice cents python (prolific cents python) (down, 0, 1) (down, 60, 61) (down, 120, 121)

outage_spares_api_example :
    (fetch_surveys cents python (prolific cents python) down 180 181 opened
      ≡ fetch_surveys cents python
          (prolific cents python)
          (record down { json = λ r. no_json })
          180
          181
          opened)
    × ((fetch_surveys cents python (prolific cents python) down 180 181 opened).0 ≡ opened)
outage_spares_api_example =
    outage_spares_api cents python (prolific cents python) down down down down 0 1 60 61 120 121 180
      181 down.answers (λ r. no_json) down-IsDown down-IsDown down-IsDown (omega arith)

fetch_surveys_lem_example :
    let r = (fetch_surveys cents python (prolific cents python) down 0 1 (init breaker_config)).1 in
    let from_api = fetch_via_api cents python (prolific cents python) down in
    let from_page = fetch_via_nimble cents python (prolific cents python) down in
    let falls_back = is_empty (given from_api) && false in
    (r.surveys ≡ (if falls_back then given from_page else given from_api))
    × (length r.errors
        ≡ one_if_raised from_api + (if falls_back then one_if_raised from_page else 0))
    × (r.total_fetched ≡ length r.surveys)
unfolding init
fetch_surveys_lem_example =
    fetch_surveys_lem cents python (prolific cents python) down 0 1 (init breaker_config) refl

abbrev sources : Registry
sources = ("prolific", prolific_adapter) ∷ []

poll_cycles_never_open_example : All (NeverOpens cents python) (
    poll_cycles cents python sources "prolific"
      ((down, 0, 1) ∷ (down, 60, 61) ∷ (down, 120, 121) ∷ (down, 180, 181) ∷ []))
poll_cycles_never_open_example =
    poll_cycles_never_open cents python sources "prolific"
      ((down, 0, 1) ∷ (down, 60, 61) ∷ (down, 120, 121) ∷ (down, 180, 181) ∷ [])

abbrev around_down : String → Surroundings cents python
around_down source = record {
  settings = settings;
  net = down;
  now = 0;
  later = 1;
  answers = λ s. yes_to_all;
}

abbrev idle_cycle : LastCycle
idle_cycle = record {
  cycle_id = none;
  status = idle;
  started_at = none;
  finished_at = none;
  summary = none;
}

outage_completes_example :
    poll_all cents python sources around_down ("prolific" ∷ "unknown" ∷ []) "c1" 0 100 idle_cycle
    ≡ record {
      cycle_id = some "c1";
      status = completed;
      started_at = some 0;
      finished_at = some 100;
      summary = some no_totals;
    }
outage_completes_example =
    outage_completes cents python sources around_down ("prolific" ∷ "unknown" ∷ []) "c1" 0 100
      idle_cycle (λ source. (down-IsDown, refl))

-- two studies, the second with null filters
abbrev plain_study : Fields ℕ
plain_study = field "id" (str "s1") end

abbrev null_study : Fields ℕ
null_study = field "id" (str "s2") (field "reward" (int (natural 3)) (field "filters" null end))

abbrev studies : Items ℕ
studies = cons (dict plain_study) (cons (dict null_study) nil)

null_filters_lose_all_example :
    (e : Raised) × (parse_api cents python (dict (field "results" (list studies) end)) ≡ raise e)
unfolding payout_of duration_of places entries lookup string_eq get to_float to_int is_true
null_filters_lose_all_example =
    null_filters_lose_all cents python studies (dict plain_study ∷ []) [] null_study 300 (natural 0)
      null (field "results" (list studies) end) refl refl refl refl refl refl (omega arith)

-- sessions on a server in memory
abbrev cookies : Value ℕ
cookies = dict (field "expires_at" (str "2026-01-01T00:00:00+00:00") end)

abbrev fresh : World ℕ (Memory (Value ℕ))
fresh = record { cache = []; db = nothing }

save_session-get_example :
    elsewhere cents python plain_text memory 3600 plain_text-IsLawful memory-IsLawful
      (omega arith)
      "prolific"
      cookies
      60
      fresh
      []
    ≡ ok (some cookies)
unfolding is_serialisable lookup
save_session-get_example =
    save_session-get cents python plain_text memory 3600 plain_text-IsLawful memory-IsLawful
      (omega arith) "prolific" cookies 60 fresh [] refl refl

abbrev no_context : Raised
no_context = record { class_of = other_error; text = "Target closed" }

abbrev context_fails : Calls
context_fails = record { first_call = ok tt; second_call = ok tt; third_call = raise no_context }

abbrev no_browser : PlaywrightBrowser
no_browser = record { playwright = false; browser = false; context = false; drivers = 0 }

abbrev visit : Visit
visit = record {
  opening = context_fails;
  page = ok tt;
  page_close = ok tt;
  closing = all_well;
  block = λ has_page. ok tt;
}

browser_page_ends_example :
    browser_page true visit no_browser
    ≡ (record { playwright = true; browser = true; context = false; drivers = 1 }, raise unbound)
unfolding initialize Browser.init
browser_page_ends_example = browser_page_ends visit refl refl
