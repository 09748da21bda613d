-- ===== src/Delivery/Templates.antt =====
-- delivery/templates.py: the texts of the chat messages, and the texts of the filter's reasons in
-- filter/rules.py and filter/engine.py. How Python writes numbers and lists is given.
pub mod Issues
use lidenal85_blip.Base.{
  if◌then◌else◌, ◌==◌, string_eq, take, String, ◌<>◌, Option, none, some, List, [], ◌∷◌, ◌++◌,
}
use lidenal85_blip.Base.Texts.{concat, join, starts_with, remove}
use lidenal85_blip.Contracts.Value.{Integer, natural}
use lidenal85_blip.Contracts.Floats.{is_zero, Floats}
use lidenal85_blip.Contracts.Survey.{hourly_rate, Survey}
use lidenal85_blip.Filter.{
  Reason, no_country_restriction, country_match, country_mismatch, invalid_payout_or_duration,
  hourly_rate_ok, hourly_rate_too_low, no_device_restriction, no_device_preference, device_match,
  device_mismatch, no_screening_required, demographics_available,
  screening_required_but_no_demographics, source_not_preferred, duration_too_long,
}
use lidenal85_blip.Filter.Engine.{Line, pass, fail}

-- How Python's f-strings write a value.
pub record Formats (F : Type 0) : Type 0 where
  -- `{x:.2f}`, `{x:.0%}` and `{x}` of a float
  pub fixed2 : F → String
  pub percent : F → String
  pub float_text : F → String
  pub int_text : Integer → String
  pub list_text : List String → String
  -- `s.title()`
  pub title_case : String → String

module _ {F : Type 0} (formats : Formats F) where
  open formats use {fixed2, float_text, int_text, list_text}

  -- the reasons of `FilterRules` and of `evaluate`
  unfoldable pub reason_text : Reason F → String
  reason_text no_country_restriction = "no_country_restriction"
  reason_text country_match = "country_match"
  reason_text (country_mismatch c p) = "country_mismatch:" <> (c <> ("!=" <> p))
  reason_text invalid_payout_or_duration = "invalid_payout_or_duration"
  reason_text (hourly_rate_ok hourly) = "hourly_rate_ok:" <> (fixed2 hourly <> "/hr")
  reason_text (hourly_rate_too_low hourly least) =
      "hourly_rate_too_low:" <> (fixed2 hourly <> ("<" <> float_text least))
  reason_text no_device_restriction = "no_device_restriction"
  reason_text no_device_preference = "no_device_preference"
  reason_text device_match = "device_match"
  reason_text (device_mismatch devices) = "device_mismatch:" <> list_text devices
  reason_text no_screening_required = "no_screening_required"
  reason_text demographics_available = "demographics_available"
  reason_text screening_required_but_no_demographics = "screening_required_but_no_demographics"
  reason_text (source_not_preferred source) = "source_not_preferred:" <> source
  reason_text (duration_too_long minutes) = "duration_too_long:" <> (int_text minutes <> "min")

  unfoldable pub line_text : Line F → String
  line_text (pass reason) = reason_text reason
  line_text (fail reason) = "FAIL:" <> reason_text reason

-- `[r for r in reasons if not r.startswith("FAIL")]`
unfoldable pub passed : List String → List String
unfolding starts_with
passed [] = []
passed (r ∷ rs) = let rest = passed rs in if starts_with r "FAIL" then rest else r ∷ rest

-- `[r.replace("FAIL:", "") for r in reasons if r.startswith("FAIL")]`
unfoldable pub fails : List String → List String
unfolding starts_with remove
fails [] = []
fails (r ∷ rs) =
    let rest = fails rs in if starts_with r "FAIL" then remove "FAIL:" r ∷ rest else rest

-- a line of the message, if the text is not empty
line_if : String → String → String → String
line_if before text after = if text == "" then "" else before <> (text <> after)

unfoldable pub url_line : String → String
unfolding line_if
url_line url = line_if "\n\n🔗 [Open Survey](" url ")"

deadline_line : Option String → String
deadline_line none = ""
deadline_line (some deadline) = line_if "\n*Deadline:* " deadline ""

module _ (N : Floats) (formats : Formats N.Float) where
  open N use {Float, lt, of_integer}
  open formats use {fixed2, percent, int_text, title_case}

  places_line : Option Integer → String
  places_line none = ""
  places_line (some n) = if is_zero n then "" else "\n*Places:* " <> int_text n

  rate_text : Float → String
  rate_text rate = if lt (of_integer (natural 0)) rate then "$" <> (fixed2 rate <> "/hr") else "N/A"

  unfoldable pub survey_eligible : Survey Float → Float → List String → String
  unfolding url_line deadline_line places_line rate_text passed join concat
  survey_eligible s score reasons = concat (
      "📋 *New Survey — "
      ∷ title_case s.source
      ∷ "*\n\n*"
      ∷ s.title
      ∷ "*\n*Payout:* $"
      ∷ fixed2 s.payout
      ∷ " · "
      ∷ int_text s.duration_minutes
      ∷ " min · "
      ∷ rate_text (hourly_rate N s)
      ∷ "\n*Score:* "
      ∷ percent score
      ∷ places_line s.places_available
      ∷ deadline_line s.deadline
      ∷ url_line s.url
      ∷ "\n\n✅ "
      ∷ join " · " (take 3 (passed reasons))
      ∷ [])

  -- the message up to its issues
  unfoldable pub review_head : Survey Float → Float → List String
  review_head s score =
      "⚠\u{fe0f} *Review Required — "
      ∷ title_case s.source
      ∷ "*\n\n*"
      ∷ s.title
      ∷ "*\n*Payout:* $"
      ∷ fixed2 s.payout
      ∷ " · "
      ∷ int_text s.duration_minutes
      ∷ " min\n*Score:* "
      ∷ percent score
      ∷ url_line s.url
      ∷ "\n\n⚠\u{fe0f} Issues: "
      ∷ []

  unfoldable pub survey_review : Survey Float → Float → List String → String
  unfolding review_head fails join concat
  survey_review s score reasons =
      concat (review_head s score ++ join ", " (take 3 (fails reasons)) ∷ [])

  unfoldable pub delivery_failed : String → Integer → String
  delivery_failed error retry_count = concat (
      "❌ *Delivery Failed*\n\n*Error:* "
      ∷ error
      ∷ "\n*Retries:* "
      ∷ int_text retry_count
      ∷ "\nCheck DLQ for details."
      ∷ [])
