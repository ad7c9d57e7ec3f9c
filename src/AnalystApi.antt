-- ===== src/AnalystApi.antt =====
-- services/analyst_api/veripay_analyst_api: the vocabulary that its parts share (models.py), and what
-- they call of Python's texts and floats.
pub mod Adjustments
pub mod Profiles
pub mod Reasoning
pub mod Drift
pub mod Scoring
pub mod Assessment
pub mod Service
pub mod Feedback
pub mod Scored
pub mod Retained
pub mod Decisions
pub mod Queue
pub mod Heightened
pub mod Stats
pub mod Crosscheck
use veri_pay.Common.{Bool, Eq, String, arith, nat_beq, true, ℕ, ℤ, ◌↔◌, ◌≡◌}
use veri_pay.DecisionEngine.Float.{Float}

pub data Decision : Type 0 where
  block review_stealth review_unusual pass : Decision

-- The equality of members of a `StrEnum`.
abbrev pub decision_index : Decision → ℕ
decision_index Decision.block = 0
decision_index Decision.review_stealth = 1
decision_index Decision.review_unusual = 2
decision_index Decision.pass = 3

abbrev pub decision_beq : Decision → Decision → Bool
decision_beq d e = nat_beq (decision_index d) (decision_index e)

pub decision_beq_iff : (d e : Decision) → (decision_beq d e ≡ true) ↔ (d ≡ e)
decision_beq_iff d e = ground arith

instance abbrev pub decision_eq : Eq Decision
decision_eq = record { beq = decision_beq; beq_iff = decision_beq_iff }

pub data RiskLevel : Type 0 where
  high moderate low : RiskLevel

-- `GeoPoint`
pub record GeoPoint (f : Float) : Type 0 where
  pub lat : f.Real
  pub lon : f.Real

-- What the service calls and this repository does not hold: `label.strip().lower()`, the roundings
-- `round(x, 4)`, `round(x, 2)` and `round(x)`, and the text of a float with two digits, of a float, and of an int.
pub record Tools (f : Float) : Type 0 where
  pub normalize : String → String
  pub round4 : f.Real → f.Real
  pub round2 : f.Real → f.Real
  pub round : f.Real → ℤ
  pub fixed2 : f.Real → String
  pub show : f.Real → String
  pub show_int : ℕ → String
