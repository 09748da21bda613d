-- ===== src/Contracts.antt =====
-- The data that the components exchange, src/survey_finder/contracts/, and the Python values that
-- untyped dicts hold.
pub mod Value
pub mod Floats
pub mod Survey
pub mod Pydantic
pub mod Json
pub mod Cycle
