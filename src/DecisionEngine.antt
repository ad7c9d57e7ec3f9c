-- ===== src/DecisionEngine.antt =====
-- services/decision_engine/veripay_decision_engine/service.py: hard controls first, then the action
-- of least expected cost among those of the tier.
pub mod Float
pub mod Models
pub mod Control
pub mod Decide
pub mod Selection
pub mod Safety
pub mod Total
