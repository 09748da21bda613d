-- ===== src/Adapters/Nimble.antt =====
-- adapters/nimble.py: what NimbleClient makes of Nimble's answers. The request itself is the
-- network's; log lines are left out.
use lidenal85_blip.Base.{if◌then◌else◌, Bool, true, false}
use lidenal85_blip.Contracts.Value.{Value, null, str, list, dict, nil}
use lidenal85_blip.Contracts.Floats.{◌>>=◌, Outcome, Floats, ok, raise}
use lidenal85_blip.Adapters.Items.{get, is_true, Python}

-- What the request to Nimble meets: an exception, those of `raise_for_status` and `json`
-- included, or the JSON of the answer.
pub data Reply (F : Type 0) : Type 0 where
  failed : Reply F
  answered : Value F → Reply F

-- the values that `len` takes
abbrev has_len : {F : Type 0} → Value F → Bool
has_len (str s) = true
has_len (list xs) = true
has_len (dict fs) = true
has_len v = false

module _ (N : Floats) (py : Python N) where
  open N use {Float}

  -- `data.get("html_content") or data.get("content", "")`
  content : Value Float → Outcome (Value Float)
  content payload = do
    html ← get N py "html_content" null payload
    if is_true N py html then ok html else get N py "content" (str "") payload

  -- `len(html)`, in the log line, raises for what has none, and every exception gives None
  checked : Outcome (Value Float) → Value Float
  checked (ok html) = if has_len html then html else null
  checked (raise e) = null

  from_reply : Reply Float → Value Float
  from_reply failed = null
  from_reply (answered payload) = checked (content payload)

  -- `fetch_html`, by whether there is an API key; None is `null`
  unfoldable pub fetch_html : Bool → Reply Float → Value Float
  unfolding content checked from_reply
  fetch_html enabled reply = if enabled then from_reply reply else null

  or_nil : Outcome (Value Float) → Value Float
  or_nil (ok v) = v
  or_nil (raise e) = list nil

  results_of : Reply Float → Value Float
  results_of failed = list nil
  results_of (answered payload) = or_nil (get N py "results" (list nil) payload)

  -- `search`
  unfoldable pub search_web : Bool → Reply Float → Value Float
  unfolding or_nil results_of
  search_web enabled reply = if enabled then results_of reply else list nil
