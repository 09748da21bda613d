-- ===== src/Pipeline.antt =====
-- The pipeline, src/survey_finder/pipeline/: the orchestrator that runs in production, and the
-- seven steps with their context.
pub mod Orchestrator
pub mod Steps
