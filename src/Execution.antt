-- ===== src/Execution.antt =====
-- The single-process execution layer, src/survey_finder/execution/: one child module for each
-- class.
pub mod LeaseLock
pub mod IdempotencyGate
pub mod BackpressureBuffer
pub mod Controller
