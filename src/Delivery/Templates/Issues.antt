-- ===== src/Delivery/Templates/Issues.antt =====
-- Which lines of the filter the messages show.
use lidenal85_blip.Base.{
  take, ℕ, zero, suc, String, ◌<>◌, ◌≡◌, refl, ap, true, false, List, [], ◌∷◌, ◌++◌, map,
}
use lidenal85_blip.Base.Texts.{
  starts_with, remove, clashes, starts_with-append_clashes, starts_with-append, remove-fail_marker,
  concat, join,
}
use lidenal85_blip.Contracts.Floats.{Floats}
use lidenal85_blip.Contracts.Survey.{Survey}
use lidenal85_blip.Filter.{
  Reason, no_country_restriction, country_match, country_mismatch, invalid_payout_or_duration,
  hourly_rate_ok, hourly_rate_too_low, no_device_restriction, no_device_preference, device_match,
  device_mismatch, no_screening_required, demographics_available,
  screening_required_but_no_demographics, source_not_preferred, duration_too_long,
}
use lidenal85_blip.Filter.Engine.{Line, pass, fail}
use lidenal85_blip.Delivery.Templates.{
  reason_text, line_text, passed, fails, Formats, review_head, survey_review,
}

-- The reasons of the lines that passed, and of those that failed.
abbrev pub passed_reasons : {F : Type 0} → List (Line F) → List (Reason F)
passed_reasons [] = []
passed_reasons (pass r ∷ ls) = r ∷ passed_reasons ls
passed_reasons (fail r ∷ ls) = passed_reasons ls

abbrev pub failed_reasons : {F : Type 0} → List (Line F) → List (Reason F)
failed_reasons [] = []
failed_reasons (pass r ∷ ls) = failed_reasons ls
failed_reasons (fail r ∷ ls) = r ∷ failed_reasons ls

take-map {ℓ κ} :
    {A : Type ℓ} {B : Type κ} (f : A → B) (n : ℕ) (xs : List A)
    → take n (map f xs) ≡ map f (take n xs)
take-map f zero xs = refl
take-map f (suc n) [] = refl
take-map f (suc n) (x ∷ xs) = ap (◌∷◌ (f x)) (take-map f n xs)

unmarked :
    (text rest : String) → clashes text "FAIL" ≡ true → starts_with (text <> rest) "FAIL" ≡ false
unmarked text rest h = starts_with-append_clashes text rest "FAIL" h

module _ {F : Type 0} (formats : Formats F) where
  reason_text-unmarked : (r : Reason F) → starts_with (reason_text formats r) "FAIL" ≡ false
  unfolding reason_text clashes
  reason_text-unmarked no_country_restriction = unmarked "no_country_restriction" "" refl
  reason_text-unmarked country_match = unmarked "country_match" "" refl
  reason_text-unmarked (country_mismatch c p) = unmarked "country_mismatch:" _ refl
  reason_text-unmarked invalid_payout_or_duration = unmarked "invalid_payout_or_duration" "" refl
  reason_text-unmarked (hourly_rate_ok h) = unmarked "hourly_rate_ok:" _ refl
  reason_text-unmarked (hourly_rate_too_low h m) = unmarked "hourly_rate_too_low:" _ refl
  reason_text-unmarked no_device_restriction = unmarked "no_device_restriction" "" refl
  reason_text-unmarked no_device_preference = unmarked "no_device_preference" "" refl
  reason_text-unmarked device_match = unmarked "device_match" "" refl
  reason_text-unmarked (device_mismatch ds) = unmarked "device_mismatch:" _ refl
  reason_text-unmarked no_screening_required = unmarked "no_screening_required" "" refl
  reason_text-unmarked demographics_available = unmarked "demographics_available" "" refl
  reason_text-unmarked screening_required_but_no_demographics =
      unmarked "screening_required_but_no_demographics" "" refl
  reason_text-unmarked (source_not_preferred s) = unmarked "source_not_preferred:" _ refl
  reason_text-unmarked (duration_too_long n) = unmarked "duration_too_long:" _ refl

  passed-line_texts :
      (ls : List (Line F))
      → passed (map (line_text formats) ls) ≡ map (reason_text formats) (passed_reasons ls)
  unfolding passed line_text
  passed-line_texts [] = refl
  passed-line_texts (pass r ∷ ls) = rw (reason_text-unmarked r, passed-line_texts ls) refl
  passed-line_texts (fail r ∷ ls) =
      rw (starts_with-append "FAIL:" (reason_text formats r) "FAIL" refl) (passed-line_texts ls)

  abbrev pub issue_text : Reason F → String
  issue_text r = remove "FAIL:" (reason_text formats r)

  fails-line_texts :
      (ls : List (Line F)) → fails (map (line_text formats) ls) ≡ map issue_text (failed_reasons ls)
  unfolding fails line_text
  fails-line_texts [] = refl
  fails-line_texts (pass r ∷ ls) = rw (reason_text-unmarked r) (fails-line_texts ls)
  fails-line_texts (fail r ∷ ls) =
      rw
        (
          starts_with-append "FAIL:" (reason_text formats r) "FAIL" refl,
          remove-fail_marker (reason_text formats r),
          fails-line_texts ls,
        )
        refl

module _ (N : Floats) (formats : Formats N.Float) where
  open N use {Float}

  -- The review message of a survey with the filter's lines ends in the first three of the failed
  -- reasons, in the order of the lines and without the mark FAIL, and in no reason that passed.
  pub survey_review_lem :
      (s : Survey Float) (score : Float) (ls : List (Line Float))
      → survey_review N formats s score (map (line_text formats) ls)
        ≡ concat (
            review_head N formats s score
            ++ join ", " (map (issue_text formats) (take 3 (failed_reasons ls))) ∷ [])
  unfolding survey_review
  survey_review_lem s score ls =
      rw (fails-line_texts formats ls, take-map (issue_text formats) 3 (failed_reasons ls)) refl

  -- The message of an eligible survey ends in the first three of the reasons that passed.
  pub passed_shown :
      (ls : List (Line Float))
      → take 3 (passed (map (line_text formats) ls))
        ≡ map (reason_text formats) (take 3 (passed_reasons ls))
  passed_shown ls =
      rw (passed-line_texts formats ls, take-map (reason_text formats) 3 (passed_reasons ls)) refl
