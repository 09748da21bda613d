-- ===== src/Hardening/Metrics/Log.antt =====
-- The registry as a log of what was recorded.
use lidenal85_blip.Base.{
  if◌then◌else◌, ◌==◌, string_eq, String, ◌≡◌, refl, ap, ◌∙◌, some, List, [], ◌∷◌, ◌++◌, arith,
}
use lidenal85_blip.Base.Dict.{lookup-insert, lookup}
use lidenal85_blip.Contracts.Value.{natural}
use lidenal85_blip.Contracts.Floats.{Floats}
use lidenal85_blip.Hardening.Metrics.{
  Labels, Registry, recorded, append_metric, counter, gauge, histogram, reset, Metric,
  get_gauge_value, sum_from, get_counter_value, last_value,
}

-- A call of the registry that changes it.
pub data Call (F : Type 0) : Type 0 where
  count_call gauge_call observe_call : String → F → Labels → Call F
  reset_call : Call F

module _ {F : Type 0} where
  abbrev pub perform : Call F → Registry F → Registry F
  perform (count_call name value labels) r = counter name value labels r
  perform (gauge_call name value labels) r = gauge name value labels r
  perform (observe_call name value labels) r = histogram name value labels r
  perform reset_call r = reset r

  -- the calls, the latest first
  unfoldable pub perform_all : List (Call F) → Registry F
  perform_all [] = []
  perform_all (c ∷ earlier) = perform c (perform_all earlier)

  metric : String → F → Labels → Metric F
  metric name value labels = record { name = name; value = value; labels = labels }

  abbrev pub with_call : String → Metric F → List (Metric F) → List (Metric F)
  with_call name m ms = if name == m.name then ms ++ m ∷ [] else ms

  -- what the calls since the last reset recorded under the name, in order, whatever their kinds
  unfoldable pub log_of : String → List (Call F) → List (Metric F)
  unfolding metric
  log_of name [] = []
  log_of name (count_call n value labels ∷ earlier) =
      with_call name (metric n value labels) (log_of name earlier)
  log_of name (gauge_call n value labels ∷ earlier) =
      with_call name (metric n value labels) (log_of name earlier)
  log_of name (observe_call n value labels ∷ earlier) =
      with_call name (metric n value labels) (log_of name earlier)
  log_of name (reset_call ∷ earlier) = []

  recorded-append :
      (name : String) (m : Metric F) (r : Registry F)
      → recorded name (append_metric m r) ≡ with_call name m (recorded name r)
  unfolding recorded append_metric
  recorded-append name m r =
      ground (arith, lookup-insert name m.name (recorded m.name r ++ m ∷ []) r)

  -- After any calls, what the registry has under a name is what the calls since the last reset
  -- recorded under it, in their order.
  pub recorded-perform_all :
      (name : String) (calls : List (Call F))
      → recorded name (perform_all calls) ≡ log_of name calls
  unfolding perform_all log_of reset recorded lookup counter gauge histogram
  recorded-perform_all name [] = refl
  recorded-perform_all name (count_call n value labels ∷ earlier) =
      recorded-append name (metric n value labels) (perform_all earlier)
      ∙ ap (with_call name (metric n value labels)) (recorded-perform_all name earlier)
  recorded-perform_all name (gauge_call n value labels ∷ earlier) =
      recorded-append name (metric n value labels) (perform_all earlier)
      ∙ ap (with_call name (metric n value labels)) (recorded-perform_all name earlier)
  recorded-perform_all name (observe_call n value labels ∷ earlier) =
      recorded-append name (metric n value labels) (perform_all earlier)
      ∙ ap (with_call name (metric n value labels)) (recorded-perform_all name earlier)
  recorded-perform_all name (reset_call ∷ earlier) = refl

  last_value-append :
      (ms : List (Metric F)) (m : Metric F) → last_value (ms ++ m ∷ []) ≡ some m.value
  last_value-append [] m = refl
  last_value-append (x ∷ []) m = refl
  last_value-append (x ∷ y ∷ ms) m = last_value-append (y ∷ ms) m

  -- the reading of a gauge after it, or another, is set
  pub set-get_gauge_value :
      (name other : String) (value : F) (labels : Labels) (r : Registry F)
      → get_gauge_value other (gauge name value labels r)
        ≡ (if other == name then some value else get_gauge_value other r)
  unfolding gauge get_gauge_value recorded append_metric metric
  set-get_gauge_value name other value labels r =
      let m : Metric F = metric name value labels in
      ap last_value (recorded-append other m r)
      ∙ ground (arith, last_value-append (recorded other r) m)

module _ (N : Floats) where
  open N use {Float, add}

  sum_from-append :
      (total : Float) (ms : List (Metric Float)) (m : Metric Float)
      → sum_from N total (ms ++ m ∷ []) ≡ add (sum_from N total ms) m.value
  sum_from-append total [] m = refl
  sum_from-append total (x ∷ ms) m = sum_from-append (add total x.value) ms m

  -- Counting adds the value to the total of its name and changes no other total; a gauge that is
  -- set is what is read, and the reading of no other name changes.
  pub counter-get_counter_value :
      (name other : String) (value : Float) (labels : Labels) (r : Registry Float)
      → (get_counter_value N other (counter name value labels r) ≡ (
          if other == name
          then add (get_counter_value N other r) value
          else get_counter_value N other r))
        × (get_gauge_value other (gauge name value labels r)
            ≡ (if other == name then some value else get_gauge_value other r))
  unfolding counter gauge get_counter_value get_gauge_value recorded append_metric metric
  counter-get_counter_value name other value labels r =
      let m : Metric Float = metric name value labels in
      let ms : List (Metric Float) = recorded other r in
      let start : Float = N.of_integer (natural 0) in
      (
        ap (sum_from N start) (recorded-append other m r)
            ∙ ground (arith, sum_from-append start ms m),
        set-get_gauge_value name other value labels r,
      )
