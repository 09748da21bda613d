-- ===== src/Hardening/Health.antt =====
-- hardening/health.py: the checker and its three checks. What a client meets is given; time
-- stamps and log lines are left out.
pub mod All
use lidenal85_blip.Base.{
  eqb, if◌then◌else◌, ◌==◌, string_eq, length, ℕ, ◌+◌, String, Bool, true, false, Option, none,
  some, [], ◌∷◌,
}
use lidenal85_blip.Base.Dict.{Dict, insert}
use lidenal85_blip.Contracts.Value.{Value, natural, null, int, str, dict, end}
use lidenal85_blip.Contracts.Floats.{◌>>=◌, Outcome, Floats, ok, raise}
use lidenal85_blip.Adapters.Items.{get, Python}
use lidenal85_blip.Hardening.Metrics.{Registry, gauge}

pub data Status : Type 0 where
  healthy degraded unhealthy : Status

pub record HealthCheckResult (F : Type 0) : Type 0 where
  pub status : Status
  pub component : String
  pub details : Dict String (Value F)

abbrev pub is_healthy : Status → Bool
is_healthy healthy = true
is_healthy _ = false

-- What connecting to PostgreSQL meets: no psycopg2, an exception, or a connection.
pub data Postgres : Type 0 where
  not_installed : Postgres
  refused : String → Postgres
  connected : Postgres

module _ {F : Type 0} where
  abbrev with_error : Status → String → String → HealthCheckResult F
  with_error status component text = record {
    status = status;
    component = component;
    details = ("error", str text) ∷ [];
  }

  -- A check is what calling it does. `register` replaces the check of the same name.
  unfoldable pub register :
      String
      → Outcome (HealthCheckResult F)
      → Dict String (Outcome (HealthCheckResult F))
      → Dict String (Outcome (HealthCheckResult F))
  register name check checks = insert name check checks

  -- the result of one turn of the loop of `check_all`
  unfoldable pub result_of : String → Outcome (HealthCheckResult F) → HealthCheckResult F
  result_of name (ok result) = result
  result_of name (raise e) = with_error unhealthy name e.text

  -- the loop: `checks` has each name once
  unfoldable pub run_checks :
      Dict String (Outcome (HealthCheckResult F)) → Dict String (HealthCheckResult F)
  run_checks [] = []
  run_checks ((name, check) ∷ checks) = (name, result_of name check) ∷ run_checks checks

  unfoldable pub healthy_count : Dict String (HealthCheckResult F) → ℕ
  healthy_count [] = 0
  healthy_count ((name, r) ∷ results) =
      let rest = healthy_count results in if is_healthy r.status then rest + 1 else rest

  -- `check_redis`, by what connecting and `ping` do
  unfoldable pub check_redis : String → Outcome (Unit {0}) → HealthCheckResult F
  check_redis url (ok _) = record {
    status = healthy;
    component = "redis";
    details = ("url", str url) ∷ [];
  }
  check_redis url (raise e) = with_error unhealthy "redis" e.text

  -- `check_postgres`; the DSN's part after the first "@", if it has one, is given
  unfoldable pub check_postgres : Option String → Postgres → HealthCheckResult F
  check_postgres host not_installed = with_error degraded "postgres" "psycopg2 not installed"
  check_postgres host (refused text) = with_error unhealthy "postgres" text
  check_postgres none connected = record {
    status = healthy;
    component = "postgres";
    details = ("dsn", str "unknown") ∷ [];
  }
  check_postgres (some host) connected = record {
    status = healthy;
    component = "postgres";
    details = ("dsn", str host) ∷ [];
  }

module _ (N : Floats) (py : Python N) where
  open N use {Float, of_integer}

  set_counts : Dict String (HealthCheckResult Float) → Registry Float → Registry Float
  set_counts results metrics =
      gauge "health_check_total" (of_integer (natural (length results))) [] (
        gauge "health_check_healthy_count" (of_integer (natural (healthy_count results))) []
          metrics)

  -- `check_all`, with the metrics registry
  unfoldable pub check_all :
      Dict String (Outcome (HealthCheckResult Float))
      → Registry Float
      → Registry Float × Dict String (HealthCheckResult Float)
  unfolding set_counts
  check_all checks metrics =
      let results = run_checks checks in (set_counts results metrics, results)

  -- What the request to Telegram meets: an exception, or a response with what its `json()` does.
  pub data Reply : Type 0 where
    failed : String → Reply
    answered : ℕ → Outcome (Value Float) → Reply

  username : Outcome (Value Float) → Outcome (Value Float)
  username json = do
    body ← json
    result ← get N py "result" (dict end) body
    get N py "username" null result

  with_username : Outcome (Value Float) → HealthCheckResult Float
  with_username (ok name) = record {
    status = healthy;
    component = "telegram";
    details = ("bot_username", name) ∷ [];
  }
  with_username (raise e) = with_error unhealthy "telegram" e.text

  from_reply : Reply → HealthCheckResult Float
  from_reply (failed text) = with_error unhealthy "telegram" text
  from_reply (answered status json) =
      if eqb status 200 then with_username (username json) else record {
        status = unhealthy;
        component = "telegram";
        details = ("status_code", int (natural status)) ∷ [];
      }

  -- `check_telegram`; the token is none or empty if it is not configured
  unfoldable pub check_telegram : Option String → Reply → HealthCheckResult Float
  unfolding username with_username from_reply
  check_telegram none reply = with_error degraded "telegram" "TELEGRAM_BOT_TOKEN not configured"
  check_telegram (some token) reply =
      if token == ""
      then with_error degraded "telegram" "TELEGRAM_BOT_TOKEN not configured"
      else from_reply reply
