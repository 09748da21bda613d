-- ===== src/Hardening.antt =====
-- The hardening layer, src/survey_finder/hardening/: one child module for each class.
pub mod CircuitBreaker
pub mod RateLimiter
pub mod Metrics
pub mod Health
pub mod Shutdown
