-- ===== src/Filter.antt =====
-- filter/rules.py: the four rules. A reason is kept by the format string that the source builds,
-- with its arguments, not as the formatted text.
pub mod Engine
use lidenal85_blip.Base.{
  if◌then◌else◌, ◌==◌, contains, string_eq, String, Bool, true, false, not, ◌||◌, Option, none,
  some, List, [], ◌∷◌,
}
use lidenal85_blip.Contracts.Value.{Integer, Fields, natural, end, field}
use lidenal85_blip.Contracts.Floats.{Floats, is_positive}
use lidenal85_blip.Contracts.Survey.{Survey, UserProfile}

pub data Reason (F : Type 0) : Type 0 where
  no_country_restriction country_match : Reason F
  country_mismatch : String → String → Reason F
  invalid_payout_or_duration : Reason F
  hourly_rate_ok : F → Reason F
  hourly_rate_too_low : F → F → Reason F
  no_device_restriction no_device_preference device_match : Reason F
  device_mismatch : List String → Reason F
  no_screening_required demographics_available screening_required_but_no_demographics : Reason F
  source_not_preferred : String → Reason F
  duration_too_long : Integer → Reason F

abbrev pub is_empty_list : List String → Bool
is_empty_list [] = true
is_empty_list (_ ∷ _) = false

abbrev pub is_empty_dict : {F : Type 0} → Fields F → Bool
is_empty_dict end = true
is_empty_dict (field k v fs) = false

-- `any(d in devices for d in allowed)`
unfoldable pub any_in : List String → List String → Bool
any_in [] devices = false
any_in (d ∷ ds) devices = contains devices d || any_in ds devices

module _ (N : Floats) where
  open N use {Float, upper, of_integer, decimal, mul, div, le}

  -- the rest of `country_match`, where the survey names a country
  country_named : String → String → Bool × Reason Float
  country_named c p =
      if c == ""
      then (true, no_country_restriction)
      else if upper c == upper p
      then (true, country_match)
      else (false, country_mismatch c p)

  country_of : Option String → String → Bool × Reason Float
  country_of none p = (true, no_country_restriction)
  country_of (some c) p = country_named c p

  unfoldable pub check_country : Survey Float → UserProfile Float → Bool × Reason Float
  unfolding country_named country_of
  check_country s p = country_of s.country p.country

  unfoldable pub check_hourly_rate : Survey Float → UserProfile Float → Bool × Reason Float
  check_hourly_rate s p =
      let hourly = mul (div s.payout (of_integer s.duration_minutes)) (of_integer (natural 60)) in
      if le s.payout (of_integer (natural 0)) || not (is_positive s.duration_minutes)
      then (false, invalid_payout_or_duration)
      else if le p.min_hourly_rate hourly
      then (true, hourly_rate_ok hourly)
      else (false, hourly_rate_too_low hourly p.min_hourly_rate)

  unfoldable pub check_device : Survey Float → UserProfile Float → Bool × Reason Float
  unfolding any_in
  check_device s p =
      if is_empty_list s.device_requirements
      then (true, no_device_restriction)
      else if is_empty_list p.allowed_devices
      then (true, no_device_preference)
      else if any_in p.allowed_devices s.device_requirements
      then (true, device_match)
      else (false, device_mismatch s.device_requirements)

  unfoldable pub check_screening : Survey Float → UserProfile Float → Bool × Reason Float
  check_screening s p =
      if is_empty_dict s.eligibility_criteria
      then (true, no_screening_required)
      else if not (is_empty_dict p.demographics)
      then (true, demographics_available)
      else (false, screening_required_but_no_demographics)
