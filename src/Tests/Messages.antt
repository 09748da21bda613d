-- ===== src/Tests/Messages.antt =====
-- The theorems on messages at a survey that pays too little.
use lidenal85_blip.Base.{string_eq, take, ℕ, ◌≡◌, refl, [], ◌∷◌, ◌++◌, map}
use lidenal85_blip.Base.Texts.{concat, join, remove}
use lidenal85_blip.Contracts.Survey.{Survey}
use lidenal85_blip.Filter.{check_country, check_hourly_rate, check_device, check_screening}
use lidenal85_blip.Filter.Engine.{is_unwanted, is_too_long, evaluate, eligible}
use lidenal85_blip.Delivery.Templates.{reason_text, line_text, url_line, review_head, survey_review}
use lidenal85_blip.Delivery.Templates.Issues.{failed_reasons, issue_text, survey_review_lem}
use lidenal85_blip.Delivery.Dispatcher.{message_of}
use lidenal85_blip.Delivery.Dispatcher.Thresholds.{eligible_reads_review, FailsRateOnly}
use lidenal85_blip.Tests.Formats.{dollars}
use lidenal85_blip.Tests.Data.{cents, open_chat, user}
use lidenal85_blip.Tests.Queue.{plain_text, store_of_lists, self, outage}

-- a survey of 20 minutes for one dollar
abbrev cheap : Survey ℕ
cheap = record open_chat { payout = 100 }

cheap_FailsRateOnly : FailsRateOnly cents cheap user
unfolding check_hourly_rate check_country check_device check_screening is_unwanted is_too_long
cheap_FailsRateOnly = record {
  rate = refl;
  country = refl;
  device = refl;
  screening = refl;
  wanted = refl;
  short = refl;
}

eligible_reads_review_example :
    let f = evaluate cents 50 cheap user "c1" in
    (f.status ≡ eligible)
    × (message_of cents self outage plain_text store_of_lists cheap f.score
          (map (line_text dollars) f.reasons)
        ≡ concat (
            review_head cents dollars cheap f.score
            ++ issue_text dollars (check_hourly_rate cents cheap user).1 ∷ []))
eligible_reads_review_example =
    eligible_reads_review cents self outage plain_text store_of_lists 50 cheap user "c1"
      cheap_FailsRateOnly refl refl

-- the text of that message
cheap_text :
    concat (
      review_head cents dollars cheap 60
      ++ issue_text dollars (check_hourly_rate cents cheap user).1 ∷ [])
    ≡ "⚠\u{fe0f} *Review Required — prolific*\n\n*Chat*\n*Payout:* $1.00 · 20 min\n*Score:* 60%\n\n⚠\u{fe0f} Issues: hourly_rate_too_low:3.00<6.0"
unfolding review_head concat url_line reason_text remove check_hourly_rate string_eq
cheap_text = refl

survey_review_lem_example :
    survey_review cents dollars cheap 60
      (map (line_text dollars) (evaluate cents 50 cheap user "c1").reasons)
    ≡ concat (
        review_head cents dollars cheap 60
        ++ join ", " (
            map
              (issue_text dollars)
              (take 3 (failed_reasons (evaluate cents 50 cheap user "c1").reasons)))
          ∷ [])
survey_review_lem_example =
    survey_review_lem cents dollars cheap 60 (evaluate cents 50 cheap user "c1").reasons
