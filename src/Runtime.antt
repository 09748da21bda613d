-- ===== src/Runtime.antt =====
-- The in-process runtime, src/survey_finder/runtime/: one child module for each class. A method
-- takes the object's record and returns the new one; a lock makes a method one step, so threads
-- are sequences of calls. `time.time()` is an argument, a number of clock ticks, and the spans
-- that the constructors take are given in the same ticks.
pub mod EventBuffer
pub mod LeaseLock
pub mod CircuitBreaker
pub mod DeadLetterQueue
pub mod Wrapped
pub mod IdempotencyGate
pub mod Metrics
pub mod ReplayStore
pub mod Shutdown
pub mod ExecutionController
