-- ===== src/Contracts/Cycle.antt =====
-- contracts/cycle.py and contracts/cep.py: the context of a cycle and the protocol of its
-- execution.
use lidenal85_blip.Base.{ℕ, String, Option, none, some}

pub record CycleContext : Type 0 where
  pub cycle_id : String
  pub version : String
  pub started_at : ℕ
  pub status : String

-- What `uuid4()` and `datetime.utcnow()` gave when the class was made.
pub record ImportTime : Type 0 where
  pub class_id : String
  pub class_time : ℕ

or_default : Option String → String → String
or_default none v = v
or_default (some v) _ = v

-- `CycleContext(cycle_id=…)`: the defaults are values of the class
unfoldable pub new_context : ImportTime → Option String → CycleContext
unfolding or_default
new_context t cycle_id = record {
  cycle_id = or_default cycle_id t.class_id;
  version = "v1";
  started_at = t.class_time;
  status = "running";
}

-- `CycleExecutionProtocol()`: the defaults are made for each object
unfoldable pub new_protocol : String → ℕ → CycleContext
new_protocol fresh_id now = record {
  cycle_id = fresh_id;
  version = "v1";
  started_at = now;
  status = "running";
}

unfoldable pub mark_finished : CycleContext → CycleContext
mark_finished c = record c { status = "finished" }
