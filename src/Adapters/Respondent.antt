-- ===== src/Adapters/Respondent.antt =====
-- adapters/respondent/adapter.py: how the items of Respondent's API and of its page become
-- surveys. The JSON of the page's blobs, as `json.loads` reads it, is given: none where it
-- raises.
use lidenal85_blip.Base.{String, ◌<>◌, Option, none, some, List, [], ◌∷◌, ◌++◌}
use lidenal85_blip.Contracts.Value.{Value, natural, null, int, float, str, list, dict, nil, end}
use lidenal85_blip.Contracts.Floats.{◌>>=◌, Outcome, Floats, ok, raise}
use lidenal85_blip.Contracts.Survey.{Survey}
use lidenal85_blip.Contracts.Pydantic.{to_float, to_int}
use lidenal85_blip.Adapters.Items.{get, first_items, collect, until_raise, Python}

module _ (N : Floats) (py : Python N) where
  open N use {Float}
  open py use {construct, str_of, timestamp}

  abbrev zero_of : Value Float
  zero_of = int (natural 0)

  -- `STUDY_URL.format(id=sid)`
  unfoldable pub study_url : String → String
  study_url sid = "https://app.respondent.io/projects/" <> sid

  -- the body of the `try` of `_parse_api`
  unfoldable pub study : Value Float → Outcome (Survey Float)
  unfolding study_url
  study s = do
    id ← get N py "id" (str timestamp) s
    name ← get N py "name" (str "Untitled") s
    title ← get N py "title" name s
    reward ← get N py "compensation" zero_of s
    pay ← get N py "payout" reward s
    payout ← to_float N pay
    span ← get N py "duration" zero_of s
    minutes ← get N py "duration_minutes" span s
    duration ← to_int N minutes
    description ← get N py "description" (str "") s
    spots ← get N py "spots_remaining" null s
    end_date ← get N py "deadline" null s
    deadline ← get N py "closes_at" end_date s
    devices ← get N py "device_requirements" (list nil) s
    country ← get N py "country" null s
    criteria ← get N py "screener" (dict end) s
    construct (
        ("id", str (str_of id))
        ∷ ("title", title)
        ∷ ("payout", float payout)
        ∷ ("duration_minutes", int duration)
        ∷ ("source", str "respondent")
        ∷ ("url", str (study_url (str_of id)))
        ∷ ("description", description)
        ∷ ("places_available", spots)
        ∷ ("deadline", deadline)
        ∷ ("device_requirements", devices)
        ∷ ("country", country)
        ∷ ("eligibility_criteria", criteria)
        ∷ [])

  unfoldable pub parse_api : Value Float → Outcome (List (Survey Float))
  parse_api payload = do
    projects ← get N py "projects" (list nil) payload
    data_list ← get N py "data" projects payload
    studies ← get N py "studies" data_list payload
    items ← first_items N py 20 studies
    collect N py study items

  -- the loop's body in `_parse_html`
  unfoldable pub page_study : Value Float → Outcome (Survey Float)
  unfolding study_url
  page_study s = do
    id ← get N py "id" (str timestamp) s
    title ← get N py "title" (str "Untitled") s
    pay ← get N py "payout" zero_of s
    payout ← to_float N pay
    time ← get N py "duration" zero_of s
    duration ← to_int N time
    construct (
        ("id", str (str_of id))
        ∷ ("title", title)
        ∷ ("payout", float payout)
        ∷ ("duration_minutes", int duration)
        ∷ ("source", str "respondent")
        ∷ ("url", str (study_url (str_of id)))
        ∷ [])

  studies_of : Value Float → Outcome (List (Value Float))
  studies_of payload = do
    projects ← get N py "projects" (list nil) payload
    first_items N py 20 projects

  or_none : Outcome (List (Value Float)) → List (Value Float)
  or_none (ok items) = items
  or_none (raise e) = []

  blob_surveys : Option (Value Float) → List (Survey Float)
  blob_surveys none = []
  blob_surveys (some payload) = until_raise N py page_study (or_none (studies_of payload))

  -- `_parse_html`, from the blobs that the regular expression finds
  unfoldable pub parse_html : List (Option (Value Float)) → List (Survey Float)
  unfolding blob_surveys or_none studies_of
  parse_html [] = []
  parse_html (blob ∷ blobs) = blob_surveys blob ++ parse_html blobs
