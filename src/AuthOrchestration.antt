-- ===== src/AuthOrchestration.antt =====
-- services/auth_orchestration/veripay_auth_orchestration/service.py: verification sessions, the
-- token that each is bound to, and their completion. The clock readings and the random identifiers
-- of a call are arguments; hashing, `str.upper` and the biometric check are parameters.
pub mod Requests
pub mod Service
pub mod Creation
pub mod Completion
pub mod Opened
pub mod Liveness
pub mod Binding
pub mod Approval
pub mod Once
pub mod Sessions
pub mod Expiry
