-- ===== src/Tests.antt =====
-- Concrete parameters, and the theorems applied to them.
pub mod Data
pub mod Store
pub mod Formats
mod Pipeline
mod Runtime
mod Execution
mod Breaker
mod Shared
mod Delivery
mod Lifespan
mod Lost
mod Profile
mod Signals
mod Apart
mod Clients
mod Messages
mod Steps
pub mod Queue
mod Adapters
mod Hardening
