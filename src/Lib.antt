-- ===== src/Lib.antt =====
-- survey_finder polls survey platforms, normalizes and filters the surveys for one user and sends
-- those that remain to a chat. The package lies in src/survey_finder; its subpackages are the
-- program's parts. In a poll cycle the bootstrap makes an orchestrator for each source, whose
-- adapter fetches surveys over the HTTP client and its circuit breaker, or over Nimble; each survey
-- is normalized, filtered, checked by the Redis gate and dispatched, or stored as a dead letter.
--
-- Contracts/*: contracts/*.py, the models that travel through the pipeline (records over a type of
--   floats), Python's dicts and values, and the parameters: floats, pydantic's validation, json.
-- Redis: the Redis commands that the program sends, a parameter with its documented laws.
-- Filter, Filter/Engine: filter/rules.py and filter/engine.py (FilterRules, FilterEngine.evaluate).
-- Normalization, Normalization/Schema: normalization/engine.py, schema.py and models.py.
-- Gate: idempotency/gate.py (RedisIdempotencyGate); Gate/Race has its commands as a
--   step relation, of one key; Gate/Clients has any keys and time that passes; Gate/Held is what both
--   the clients and the orchestrator keep of the keys that are set.
-- Pipeline/Orchestrator: pipeline/orchestrator.py (PipelineOrchestrator). A task is a function of
--   the answers that it gets and lists what it asks for, so that tasks may interleave at will.
--   Pipeline/Orchestrator/Effects has a table of the ways in which a task ends,
--   Pipeline/Orchestrator/Apart puts the tasks of many cycles to one server, as a step relation, in
--   which a task calls the dispatcher at the time of the gate's answer, and
--   Pipeline/Orchestrator/Lost follows one survey through the gate and the dead letter queue.
-- Pipeline/Steps: pipeline/steps.py over pipeline/context.py, the seven steps one by one.
-- Bootstrap: bootstrap/pipeline.py and the poll cycle of bootstrap/app.py; Bootstrap/Lifespan is
--   the application around the cycles, a step relation, and Bootstrap/Profile what the
--   orchestrators are made with.
-- Coordination: coordination/lease.py, leader.py, guard.py and bootstrap.py.
-- Buffer, Buffer/Backpressure: buffer/queue.py (RedisBuffer) over Contracts/Json, and
--   buffer/backpressure.py.
-- Dlq, Dlq/Fetch: dlq/storage.py (DLQStorage) and dlq/replay.py (ReplayService).
-- Delivery/Retry, Delivery/Dispatcher: delivery/retry.py (RetryPolicy, RetryExecutor) and
--   delivery/dispatcher.py (TelegramDispatcher.dispatch), over the buffer; Delivery/Templates:
--   the messages of delivery/templates.py, with the texts of the filter's reasons; and
--   Delivery/Telegram: what `_send_telegram` makes of an answer.
-- Adapters/Http, Adapters/Http/Client: adapters/http.py (HTTPClient), its request loop and the
--   opening and closing of its client.
-- Adapters/Items: what the parsers of the platforms share; Adapters/Prolific,
--   Adapters/CloudResearch and Adapters/Respondent: the `_parse_api` and `_parse_html` of
--   adapters/prolific, adapters/cloudresearch and adapters/respondent.
-- Adapters/Fetch: their `fetch_surveys`, with Adapters/Nimble for adapters/nimble.py, over the
--   client's loop and Hardening/CircuitBreaker.
-- Adapters/Registry: adapters/registry.py, and the adapter that each poll cycle makes.
-- Adapters/Session, Adapters/Proxy, Adapters/Browser: adapters/session.py, adapters/proxy.py and
--   adapters/playwright, whose objects are records.
-- Hardening/*: hardening/circuit_breaker.py, rate_limiter.py, metrics.py, health.py and
--   shutdown.py, one module for each.
-- Runtime/*: runtime/*.py, the in-process buffer, lease, gate, breaker, dead letter queue,
--   validator, metrics, replay store, shutdown and controller, and adapters/wrapped.py, which
--   combines some of them.
-- Execution/*: execution/locks, execution/idempotency, execution/buffer and, with its interleaved
--   cycles as a step relation, execution/orchestrator/controller.py.
-- Hardening/Shutdown/Signals: the shutdowns that signals start, as steps that interleave.
-- Logging: the session log, the bound loggers and the configuration of logging/logger.py.
-- Tests/*: concrete parameters, and the theorems applied to them.
--
-- Time is a natural number that each operation is given. A method under a lock is one step. The
-- retry loop runs on fuel, one more than the attempts that the policy allows, since the policy ends
-- it at the last of them. The HTTP loop counts the attempts that are left, down to none. The loops
-- of the rate limiter and of the wait for a drained buffer run on fuel, a turn more than their limit
-- has ticks, since the clock passes a tick at least in each turn; without a limit the fuel is any
-- number. Every other loop is over a list. The rate limiter counts parts of a token, so that its
-- arithmetic is exact where the code's rounds.
--
-- What lies outside the repository is an argument of the definitions that use it: floats, pydantic,
-- json, the Redis server, the network, the platforms, Playwright, the clock.
--
-- Not modelled: FastAPI, APScheduler and structlog themselves, the health endpoints, the settings,
-- the views that PipelineRunResult gives of a summary, declarations without behaviour in contracts/,
-- and the regular expressions that find the blobs of JSON in a page. How Python writes a float, an
-- integer or a list in a message is given, and so is when the scheduler starts another instance
-- of a job.
pub mod Base
pub mod Contracts
pub mod Redis
pub mod Filter
pub mod Normalization
pub mod Gate
pub mod Pipeline
pub mod Bootstrap
pub mod Coordination
pub mod Buffer
pub mod Dlq
pub mod Delivery
pub mod Adapters
pub mod Hardening
pub mod Runtime
pub mod Execution
pub mod Logging
pub mod Tests
