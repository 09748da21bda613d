-- ===== src/Adapters.antt =====
-- adapters/: the HTTP client, and the adapters of the platforms over it.
pub mod Http
pub mod Items
pub mod Nimble
pub mod Browser
pub mod Proxy
pub mod Prolific
pub mod CloudResearch
pub mod Respondent
pub mod Registry
pub mod Session
pub mod Fetch
