-- ===== src/Tests.antt =====
-- The theorems at concrete inputs.
mod Auth
mod Decisions
mod Stores
mod Cases
mod Fixtures
mod Floats
mod Models
mod Payloads
mod Analysts
mod Scores
