-- ===== src/Hardening/Metrics.antt =====
-- hardening/metrics.py: the registry of metrics, whose one instance all components share. Time
-- stamps are left out; the values are floats.
pub mod Log
use lidenal85_blip.Base.{
  if◌then◌else◌, ◌==◌, string_eq, String, Bool, Option, none, some, List, [], ◌∷◌, ◌++◌,
}
use lidenal85_blip.Base.Dict.{Dict, lookup, insert}
use lidenal85_blip.Contracts.Value.{Integer, natural}
use lidenal85_blip.Contracts.Floats.{Floats}

abbrev pub Labels : Type 0
Labels = Dict String String

pub record Metric (F : Type 0) : Type 0 where
  pub name : String
  pub value : F
  pub labels : Labels

abbrev pub Registry : Type 0 → Type 0
Registry F = Dict String (List (Metric F))

module _ {F : Type 0} where
  abbrev or_empty : Option (List (Metric F)) → List (Metric F)
  or_empty none = []
  or_empty (some ms) = ms

  -- `self._metrics.get(name, [])`
  unfoldable pub recorded : String → Registry F → List (Metric F)
  recorded name r = or_empty (lookup name r)

  -- `self._metrics[name].append(metric)`, after a new list for a new name
  unfoldable pub append_metric : Metric F → Registry F → Registry F
  append_metric m r = insert m.name (recorded m.name r ++ m ∷ []) r

  unfoldable pub counter : String → F → Labels → Registry F → Registry F
  counter name value labels r =
      append_metric (record { name = name; value = value; labels = labels }) r

  unfoldable pub gauge : String → F → Labels → Registry F → Registry F
  gauge name value labels r =
      append_metric (record { name = name; value = value; labels = labels }) r

  unfoldable pub histogram : String → F → Labels → Registry F → Registry F
  histogram name value labels r =
      append_metric (record { name = name; value = value; labels = labels }) r

  -- `get_metrics`; an empty name is none
  unfoldable pub get_metrics : Option String → Registry F → Registry F
  unfolding recorded
  get_metrics none r = r
  get_metrics (some name) r = if name == "" then r else (name, recorded name r) ∷ []

  abbrev pub last_value : List (Metric F) → Option F
  last_value [] = none
  last_value (m ∷ []) = some m.value
  last_value (m ∷ ms) = last_value ms

  unfoldable pub get_gauge_value : String → Registry F → Option F
  get_gauge_value name r = last_value (recorded name r)

  unfoldable pub reset : Registry F → Registry F
  reset r = []

module _ (N : Floats) where
  open N use {Float, of_integer, add}

  zero_value : Float
  zero_value = of_integer (Integer.natural 0)

  one_value : Float
  one_value = of_integer (Integer.natural 1)

  -- Python's `sum`, from the left
  abbrev pub sum_from : Float → List (Metric Float) → Float
  sum_from total [] = total
  sum_from total (m ∷ ms) = sum_from (add total m.value) ms

  unfoldable pub get_counter_value : String → Registry Float → Float
  unfolding zero_value
  get_counter_value name r = sum_from zero_value (recorded name r)

  -- `record_pipeline_metrics`
  unfoldable pub record_pipeline_metrics : String → Float → Bool → Registry Float → Registry Float
  unfolding one_value
  record_pipeline_metrics step duration_ms success r =
      counter "pipeline_step_total" one_value
        (("step", step) ∷ ("status", if success then "success" else "failure") ∷ [])
        (histogram "pipeline_step_duration_ms" duration_ms (("step", step) ∷ []) r)

  -- `record_survey_metrics`
  unfoldable pub record_survey_metrics : String → String → Registry Float → Registry Float
  unfolding one_value
  record_survey_metrics source status r =
      counter "survey_processed_total" one_value (("source", source) ∷ ("status", status) ∷ []) r

  -- `record_circuit_breaker_metrics`
  unfoldable pub record_circuit_breaker_metrics : String → String → Registry Float → Registry Float
  unfolding one_value zero_value
  record_circuit_breaker_metrics name state r =
      gauge "circuit_breaker_state" (if state == "open" then one_value else zero_value)
        (("name", name) ∷ []) r
