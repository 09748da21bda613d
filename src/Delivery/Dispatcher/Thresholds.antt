-- ===== src/Delivery/Dispatcher/Thresholds.antt =====
-- The filter's threshold and the dispatcher's: what the user reads of an eligible survey.
use lidenal85_blip.Base.{String, ◌≡◌, true, false, [], ◌∷◌, ◌++◌, map, arith}
use lidenal85_blip.Contracts.Floats.{Floats}
use lidenal85_blip.Contracts.Survey.{Survey, UserProfile}
use lidenal85_blip.Filter.{check_country, check_hourly_rate, check_device, check_screening}
use lidenal85_blip.Filter.Engine.{
  check_rules, is_unwanted, check_source, is_too_long, check_duration, tally, decide, evaluate,
  eligible,
}
use lidenal85_blip.Base.Texts.{concat, join}
use lidenal85_blip.Contracts.Json.{Codec}
use lidenal85_blip.Redis.{ListStore}
use lidenal85_blip.Delivery.Templates.{line_text, review_head}
use lidenal85_blip.Delivery.Dispatcher.{message_of, Dispatcher, Surroundings}
use lidenal85_blip.Delivery.Templates.Issues.{failed_reasons, issue_text, survey_review_lem}

-- the weights of the country, the devices and the screening
abbrev pub all_but_rate : (N : Floats) → N.Float
all_but_rate N =
    N.add (N.add (N.add (N.decimal 0 1) (N.decimal 30 2)) (N.decimal 20 2)) (N.decimal 10 2)

module _ (N : Floats) (s : Survey N.Float) (p : UserProfile N.Float) where
  -- Every rule but that of the hourly rate passes, and the user asked for nothing else.
  pub record FailsRateOnly : Type 0 where
    pub rate : (check_hourly_rate N s p).0 ≡ false
    pub country : (check_country N s p).0 ≡ true
    pub device : (check_device N s p).0 ≡ true
    pub screening : (check_screening N s p).0 ≡ true
    pub wanted : is_unwanted N s p ≡ false
    pub short : is_too_long N s p ≡ false

  module _ (fails_rate : FailsRateOnly) where
    tally_rate :
        ((tally N s p).hard_fail ≡ false)
        × ((tally N s p).weighted_score ≡ all_but_rate N)
        × (failed_reasons (tally N s p).reasons ≡ (check_hourly_rate N s p).1 ∷ [])
    unfolding tally check_rules check_source check_duration
    tally_rate = ground (
      arith, fails_rate.rate, fails_rate.country, fails_rate.device, fails_rate.screening,
      fails_rate.wanted, fails_rate.short,
    )

module _ (N : Floats) (self : Dispatcher N) (world : Surroundings N) (codec : Codec N.Float)
    (S : ListStore codec.Text) where
  open N use {Float, decimal, le, round4}

  -- A survey that passes every rule of the filter but that of the hourly rate is ELIGIBLE, if the
  -- weights of the rules that it passes reach the filter's least score; but if they stay below
  -- 0.7, the dispatcher's message to the user is the one that asks for a review, with the hourly
  -- rate as its only issue.
  pub eligible_reads_review :
      (min_score : Float) (s : Survey Float) (p : UserProfile Float) (c : String)
      → FailsRateOnly N s p
      → le min_score (all_but_rate N) ≡ true
      → le (decimal 7 1) (round4 (all_but_rate N)) ≡ false
      → let f = evaluate N min_score s p c in
        (f.status ≡ eligible)
        × (message_of N self world codec S s f.score (map (line_text self.formats) f.reasons)
            ≡ concat (
                review_head N self.formats s f.score
                ++ issue_text self.formats (check_hourly_rate N s p).1 ∷ []))
  unfolding evaluate decide message_of join
  eligible_reads_review min_score s p c fails_rate enough below =
      let (kept, score, failed) = tally_rate N s p fails_rate in
      let shown =
        survey_review_lem N self.formats s (round4 (all_but_rate N)) (tally N s p).reasons in
      (ground (arith, kept, score, enough), rw (kept, score, enough, below) (rw (failed) at shown))
