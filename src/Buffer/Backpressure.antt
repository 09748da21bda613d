-- ===== src/Buffer/Backpressure.antt =====
-- buffer/backpressure.py: BackpressureController over the buffer. Log lines are left out.
use lidenal85_blip.Base.{if◌then◌else◌, ℕ, String, ◌≡◌, refl, Bool, true, false, arith}
use lidenal85_blip.Contracts.Floats.{Floats}
use lidenal85_blip.Contracts.Json.{Codec}
use lidenal85_blip.Redis.{ListStore}
use lidenal85_blip.Buffer.{usage_ratio, size}

pub data BackpressureSignal : Type 0 where
  ok_signal slow full : BackpressureSignal

pub record BackpressureState (F : Type 0) : Type 0 where
  pub signal : BackpressureSignal
  pub ratio : F
  pub held : ℕ
  pub capacity : ℕ

pub record BackpressureController (F : Type 0) : Type 0 where
  pub slow_threshold : F
  pub full_threshold : F
  pub last_signal : BackpressureSignal

unfoldable pub is_stop : BackpressureSignal → Bool
is_stop full = true
is_stop _ = false

unfoldable pub is_slow : BackpressureSignal → Bool
is_slow ok_signal = false
is_slow _ = true

module _ (N : Floats) (codec : Codec N.Float) (S : ListStore codec.Text) (key : String)
    (max_size : ℕ) where
  open N use {Float, decimal, le}

  unfoldable pub init : BackpressureController Float
  init = record {
    slow_threshold = decimal 7 1;
    full_threshold = decimal 9 1;
    last_signal = ok_signal;
  }

  signal_of : Float → BackpressureController Float → BackpressureSignal
  signal_of usage c =
      if le c.full_threshold usage
      then full
      else if le c.slow_threshold usage
      then slow
      else ok_signal

  -- `check`; the signal is stored in any case, since storing the same one changes nothing
  unfoldable pub check :
      S.Db → BackpressureController Float → BackpressureController Float × BackpressureState Float
  unfolding signal_of
  check d c =
      let usage = usage_ratio N codec S key max_size d in
      let signal = signal_of usage c in
      (
        record c { last_signal = signal },
        record {
          signal = signal;
          ratio = usage;
          held = size N codec S key max_size d;
          capacity = max_size;
        },
      )

  unfoldable pub should_stop_cycle :
      S.Db → BackpressureController Float → BackpressureController Float × Bool
  unfolding is_stop
  should_stop_cycle d c = let (c', state) = check d c in (c', is_stop state.signal)

  unfoldable pub should_slow_down :
      S.Db → BackpressureController Float → BackpressureController Float × Bool
  unfolding is_slow
  should_slow_down d c = let (c', state) = check d c in (c', is_slow state.signal)

  -- A cycle that should stop should also slow down, both checks leave the controller alike, and
  -- they ask only the buffer: the signal of an earlier check does not matter.
  pub stop_slow :
      (d : S.Db) (c : BackpressureController Float) (earlier : BackpressureSignal)
      → ((should_stop_cycle d c).1 ≡ true → (should_slow_down d c).1 ≡ true)
        × ((should_stop_cycle d c).0 ≡ (should_slow_down d (record c { last_signal = earlier })).0)
  unfolding should_stop_cycle should_slow_down check
  stop_slow d c earlier = (λ stop. ground arith, refl)
