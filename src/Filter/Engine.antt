-- ===== src/Filter/Engine.antt =====
-- filter/engine.py: the weighted score and the status. The decision's uuid and its time stamp are
-- left out of the result.
pub mod Decision
use lidenal85_blip.Base.{
  if◌then◌else◌, contains, string_eq, String, Bool, true, false, not, ◌&&◌, ◌||◌, Option, none,
  some, List, [], ◌∷◌, ◌++◌,
}
use lidenal85_blip.Contracts.Value.{Integer}
use lidenal85_blip.Contracts.Floats.{Floats, is_zero, lt_integer}
use lidenal85_blip.Contracts.Survey.{Survey, UserProfile}
use lidenal85_blip.Filter.{
  is_empty_list, check_country, check_hourly_rate, check_device, check_screening, Reason,
  source_not_preferred, duration_too_long,
}

pub data Status : Type 0 where
  eligible rejected review : Status

-- A line of `reasons`: a failed one has the prefix "FAIL:".
pub data Line (F : Type 0) : Type 0 where
  pass fail : Reason F → Line F

pub record FilterResult (F : Type 0) : Type 0 where
  pub cycle_id : String
  pub survey_id : String
  pub status : Status
  pub score : F
  pub reasons : List (Line F)

-- The local variables of `evaluate`.
pub record Tally (F : Type 0) : Type 0 where
  pub reasons : List (Line F)
  pub weighted_score : F
  pub hard_fail : Bool

module _ (N : Floats) where
  open N use {Float, of_integer, decimal, add, sub, le, lt, round4}

  -- one round of the loop over the checks; `decisive` is `name == "country_match"`
  apply_check : Float → Bool → Bool × Reason Float → Tally Float → Tally Float
  apply_check weight decisive (true, reason) t = record t {
    weighted_score = add t.weighted_score weight;
    reasons = t.reasons ++ pass reason ∷ [];
  }
  apply_check weight decisive (false, reason) t = record t {
    reasons = t.reasons ++ fail reason ∷ [];
    hard_fail = decisive || t.hard_fail;
  }

  unfoldable pub start : Tally Float
  start = record { reasons = []; weighted_score = decimal 0 1; hard_fail = false }

  -- the loop, with the weights of `RULE_WEIGHTS`
  unfoldable pub check_rules : Survey Float → UserProfile Float → Tally Float
  unfolding apply_check start
  check_rules s p =
      let t = apply_check (decimal 40 2) false (check_hourly_rate N s p) start in
      let t = apply_check (decimal 30 2) true (check_country N s p) t in
      let t = apply_check (decimal 20 2) false (check_device N s p) t in
      apply_check (decimal 10 2) false (check_screening N s p) t

  -- the source is not among the preferred ones, if there are any
  unfoldable pub is_unwanted : Survey Float → UserProfile Float → Bool
  is_unwanted s p =
      not (is_empty_list p.preferred_sources) && not (contains p.preferred_sources s.source)

  unfoldable pub check_source : Survey Float → UserProfile Float → Tally Float → Tally Float
  unfolding is_unwanted
  check_source s p t =
      if is_unwanted s p
      then record t {
        hard_fail = true;
        reasons = t.reasons ++ fail (source_not_preferred s.source) ∷ [];
      }
      else t

  exceeds : Integer → Option Integer → Bool
  exceeds n none = false
  exceeds n (some limit) = not (is_zero limit) && lt_integer limit n

  -- the survey takes longer than the user's limit, if there is one
  unfoldable pub is_too_long : Survey Float → UserProfile Float → Bool
  unfolding exceeds
  is_too_long s p = exceeds s.duration_minutes p.max_duration_minutes

  -- `max(0.0, x)`
  unfoldable pub max_zero : Float → Float
  max_zero x = if lt (decimal 0 1) x then x else decimal 0 1

  unfoldable pub check_duration : Survey Float → UserProfile Float → Tally Float → Tally Float
  unfolding is_too_long max_zero
  check_duration s p t =
      if is_too_long s p
      then record t {
        weighted_score = max_zero (sub t.weighted_score (decimal 2 1));
        reasons = t.reasons ++ fail (duration_too_long s.duration_minutes) ∷ [];
      }
      else t

  unfoldable pub decide : Float → Tally Float → Status × Float
  decide min_score t =
      if t.hard_fail
      then (rejected, decimal 0 1)
      else if le min_score t.weighted_score
      then (eligible, t.weighted_score)
      else if lt (decimal 15 2) t.weighted_score
      then (review, t.weighted_score)
      else (rejected, t.weighted_score)

  unfoldable pub tally : Survey Float → UserProfile Float → Tally Float
  unfolding check_rules check_source check_duration
  tally s p = check_duration s p (check_source s p (check_rules s p))

  unfoldable pub evaluate : Float → Survey Float → UserProfile Float → String → FilterResult Float
  unfolding decide tally
  evaluate min_score s p cycle_id =
      let t = tally s p in
      let (status, weighted_score) = decide min_score t in
      record {
        cycle_id = cycle_id;
        survey_id = s.id;
        status = status;
        score = round4 weighted_score;
        reasons = t.reasons;
      }
