-- ===== src/Filter/Engine/Decision.antt =====
-- What a decision of the filter says of the survey and the profile.
use lidenal85_blip.Base.{
  String, ◌≡◌, ◌≢◌, ◌⊎◌, Bool, true, false, not, ◌||◌, List, [], ◌∷◌, ◌++◌, arith,
}
use lidenal85_blip.Contracts.Floats.{Floats}
use lidenal85_blip.Contracts.Survey.{Survey, UserProfile}
use lidenal85_blip.Filter.{
  check_country, check_hourly_rate, check_device, check_screening, source_not_preferred, Reason,
  duration_too_long,
}
use lidenal85_blip.Filter.Engine.{
  is_unwanted, is_too_long, evaluate, Line, rejected, pass, fail, check_rules, check_source,
  check_duration, decide, tally,
}

-- the line of a rule's answer
abbrev pub line_of : {F : Type 0} → Bool × Reason F → Line F
line_of (true, reason) = pass reason
line_of (false, reason) = fail reason

-- the line of a preference or a limit, if the survey fails it
abbrev pub fail_if : {F : Type 0} → Bool → Reason F → List (Line F)
fail_if true reason = fail reason ∷ []
fail_if false reason = []

module _ (N : Floats) (min_score : N.Float) (s : Survey N.Float) (p : UserProfile N.Float)
    (c : String) where
  open N use {Float, decimal, le, lt, round4}

  check_rules-hard_fail : (check_rules N s p).hard_fail ≡ not (check_country N s p).0
  unfolding check_rules
  check_rules-hard_fail = ground arith

  tally-hard_fail : (tally N s p).hard_fail ≡ (not (check_country N s p).0 || is_unwanted N s p)
  unfolding check_source check_duration tally
  tally-hard_fail = ground (arith, check_rules-hard_fail)

  check_rules-reasons :
      (check_rules N s p).reasons
      ≡ line_of (check_hourly_rate N s p)
        ∷ line_of (check_country N s p)
        ∷ line_of (check_device N s p)
        ∷ line_of (check_screening N s p)
        ∷ []
  unfolding check_rules
  check_rules-reasons = ground arith

  -- A survey that is not rejected names no country but the user's, up to case, and comes from a
  -- preferred source, if the user has any.
  pub evaluate_sound :
      (evaluate N min_score s p c).status ≢ rejected
      → ((check_country N s p).0 ≡ true) × (is_unwanted N s p ≡ false)
  unfolding evaluate decide
  evaluate_sound h = ground (arith, tally-hard_fail)

  -- The hard failures are exactly a country that does not match and a source that is not
  -- preferred; each rejects the survey with the score 0, whatever the other rules say.
  pub evaluate_hard_fail :
      ((check_country N s p).0 ≡ false) ⊎ (is_unwanted N s p ≡ true)
      → ((evaluate N min_score s p c).status ≡ rejected)
        × ((evaluate N min_score s p c).score ≡ round4 (decimal 0 1))
  unfolding evaluate decide
  evaluate_hard_fail h = ground (arith, tally-hard_fail)

  -- The reasons of a decision are exactly: the answers of the four rules, in their order, each
  -- marked as passed or failed; then the source, as failed, if it is not preferred; then the
  -- duration, as failed, if it is over the user's limit. So nothing is left out and nothing is
  -- reported twice, whatever the status is.
  pub evaluate-reasons :
      (evaluate N min_score s p c).reasons
      ≡ line_of (check_hourly_rate N s p)
          ∷ line_of (check_country N s p)
          ∷ line_of (check_device N s p)
          ∷ line_of (check_screening N s p)
          ∷ fail_if (is_unwanted N s p) (source_not_preferred s.source)
        ++ fail_if (is_too_long N s p) (duration_too_long s.duration_minutes)
  unfolding evaluate tally check_source check_duration
  evaluate-reasons = ground (arith, check_rules-reasons)
