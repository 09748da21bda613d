-- ===== src/Adapters/Prolific.antt =====
-- adapters/prolific/adapter.py: how the items of Prolific's API and of its page become surveys.
-- The JSON of the page's blobs, as `json.loads` reads it, is given: none where it raises.
pub mod Studies
use lidenal85_blip.Base.{if◌then◌else◌, String, ◌<>◌, Option, none, some, List, [], ◌∷◌, ◌++◌}
use lidenal85_blip.Contracts.Value.{
  Value, natural, null, int, float, str, list, dict, nil, end, Integer,
}
use lidenal85_blip.Contracts.Floats.{◌>>=◌, Outcome, Floats, ok, raise}
use lidenal85_blip.Contracts.Survey.{Survey}
use lidenal85_blip.Contracts.Pydantic.{to_float, to_int}
use lidenal85_blip.Adapters.Items.{get, is_true, minus, first_items, collect, until_raise, Python}

module _ (N : Floats) (py : Python N) where
  open N use {Float}
  open py use {construct, str_of, timestamp}

  abbrev zero_of : Value Float
  zero_of = int (natural 0)

  -- `STUDY_URL.format(id=sid)`
  unfoldable pub study_url : Value Float → String
  study_url sid = "https://app.prolific.com/studies/" <> str_of sid

  -- `s.get("places_taken", None) and s.get("total_available_places", 0) - s.get("places_taken",
  -- 0)`
  unfoldable pub places : Value Float → Outcome (Value Float)
  places s = do
    taken ← get N py "places_taken" null s
    total ← get N py "total_available_places" zero_of s
    if is_true N py taken then minus N py total taken else ok taken

  -- `float(s.get("reward", 0))`
  unfoldable pub payout_of : Value Float → Outcome Float
  payout_of s = get N py "reward" zero_of s >>= to_float N

  -- `int(s.get("estimated_completion_time", s.get("estimated_duration", 0)))`
  unfoldable pub duration_of : Value Float → Outcome Integer
  duration_of s = do
    estimate ← get N py "estimated_duration" zero_of s
    time ← get N py "estimated_completion_time" estimate s
    to_int N time

  -- the body of the `try` of `_parse_api`
  unfoldable pub study : Value Float → Outcome (Survey Float)
  unfolding study_url
  study s = do
    sid ← get N py "id" (str ("prolific_" <> timestamp)) s
    title ← get N py "name" (str "Untitled") s
    payout ← payout_of s
    duration ← duration_of s
    description ← get N py "description" (str "") s
    left ← places s
    deadline ← get N py "expiration" null s
    devices ← get N py "device_compatibility" (list nil) s
    filters ← get N py "filters" (dict end) s
    country ← get N py "country" null filters
    construct (
        ("id", sid)
        ∷ ("title", title)
        ∷ ("payout", float payout)
        ∷ ("duration_minutes", int duration)
        ∷ ("source", str "prolific")
        ∷ ("url", str (study_url sid))
        ∷ ("description", description)
        ∷ ("places_available", left)
        ∷ ("deadline", deadline)
        ∷ ("device_requirements", devices)
        ∷ ("country", country)
        ∷ ("eligibility_criteria", filters)
        ∷ [])

  unfoldable pub parse_api : Value Float → Outcome (List (Survey Float))
  parse_api payload = do
    results ← get N py "results" (list nil) payload
    items ← first_items N py 20 results
    collect N py study items

  -- the loop's body in `_parse_html`
  unfoldable pub page_study : Value Float → Outcome (Survey Float)
  unfolding study_url
  page_study s = do
    id ← get N py "id" (str timestamp) s
    title ← get N py "name" (str "Untitled") s
    reward ← get N py "reward" zero_of s
    payout ← to_float N reward
    time ← get N py "estimated_completion_time" zero_of s
    duration ← to_int N time
    construct (
        ("id", str (str_of id))
        ∷ ("title", title)
        ∷ ("payout", float payout)
        ∷ ("duration_minutes", int duration)
        ∷ ("source", str "prolific")
        ∷ ("url", str (study_url (str (str_of id))))
        ∷ [])

  -- `data.get("props", {}).get("pageProps", {}).get(key, [])`
  unfoldable pub page_list : String → Value Float → Outcome (Value Float)
  page_list key payload = do
    props ← get N py "props" (dict end) payload
    page_props ← get N py "pageProps" (dict end) props
    get N py key (list nil) page_props

  studies_of : Value Float → Outcome (List (Value Float))
  studies_of payload = do
    studies ← page_list "studies" payload
    chosen ← if is_true N py studies then ok studies else page_list "availableStudies" payload
    first_items N py 20 chosen

  or_none : Outcome (List (Value Float)) → List (Value Float)
  or_none (ok items) = items
  or_none (raise e) = []

  blob_surveys : Option (Value Float) → List (Survey Float)
  blob_surveys none = []
  blob_surveys (some payload) = until_raise N py page_study (or_none (studies_of payload))

  -- `_parse_html`, from the blobs that the regular expression finds
  unfoldable pub parse_html : List (Option (Value Float)) → List (Survey Float)
  unfolding blob_surveys or_none studies_of page_list
  parse_html [] = []
  parse_html (blob ∷ blobs) = blob_surveys blob ++ parse_html blobs
