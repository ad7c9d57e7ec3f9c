-- ===== src/FiOps.antt =====
-- services/fi_ops_portal/veripay_fi_ops_portal/service.py: the operations portal's repository, its
-- dispute transitions and the regulatory report. The clock reading of a call is an argument. A
-- refusal is the error of the dispute engine that has the same text.
pub mod Refinement
use veri_pay.Common.{
  Dict, List, Option, Result, String, [], contains, count_if, err, get_or, if◌then◌else◌, insert,
  length, lookup, map, none, not, ok, some, sum, values, ℕ, ◌++◌, ◌==◌, ◌∷◌,
}
use veri_pay.DisputeEngine.{DisputeError, invalid_transition}
use veri_pay.Enums.Dispute.{DisputeReason, DisputeStatus, dispute_status_eq}
use veri_pay.Enums.Risk.{DecisionAction, RiskBand, risk_band_eq}

pub record OpsRiskComponent : Type 0 where
  pub component : String
  pub score : ℕ
  pub reason_code : Option String

pub record OpsTransactionView : Type 0 where
  pub transaction_id : String
  pub user_id : String
  pub merchant_id : Option String
  pub amount_minor : ℕ
  pub currency : String
  pub risk_score : ℕ
  pub risk_band : RiskBand
  pub decision : DecisionAction
  pub reason_codes : List String
  pub components : List OpsRiskComponent
  pub audit_event_count : ℕ
  pub transaction_state : String
  pub updated_at : ℕ

pub record OpsAuditEventView : Type 0 where
  pub event_id : String
  pub transaction_id : String
  pub event_type : String
  pub actor : String
  pub occurred_at : ℕ
  pub payload : Dict String

pub record OpsTransactionStateView : Type 0 where
  pub transaction_id : String
  pub state : String
  pub updated_at : ℕ
  pub metadata : Dict String

pub record OpsDisputeView : Type 0 where
  pub dispute_id : String
  pub transaction_id : String
  pub merchant_id : Option String
  pub amount_minor : ℕ
  pub currency : String
  pub status : DisputeStatus
  pub reason : DisputeReason
  pub updated_at : ℕ

pub record RegulatoryReport : Type 0 where
  pub generated_at : ℕ
  pub transaction_count : ℕ
  pub dispute_count : ℕ
  pub disputed_amount_minor : ℕ
  pub blocked_transaction_count : ℕ

-- `InMemoryFiOpsRepository`
pub record FiOpsRepository : Type 0 where
  pub transactions : Dict OpsTransactionView
  pub disputes : Dict OpsDisputeView
  pub audit_events : Dict (List OpsAuditEventView)
  pub transaction_states : Dict OpsTransactionStateView

-- The table `allowed` of `transition_dispute`.
unfoldable pub portal_transitions : DisputeStatus → List DisputeStatus
portal_transitions DisputeStatus.opened =
    DisputeStatus.represented ∷ DisputeStatus.accepted ∷ DisputeStatus.expired ∷ []
portal_transitions DisputeStatus.represented =
    DisputeStatus.accepted ∷ DisputeStatus.reversed ∷ DisputeStatus.expired ∷ []
portal_transitions DisputeStatus.accepted = DisputeStatus.reversed ∷ DisputeStatus.expired ∷ []
portal_transitions DisputeStatus.reversed = []
portal_transitions DisputeStatus.expired = []

-- `transition_dispute` of a known dispute
unfoldable pub transition_view :
    String
    → DisputeStatus
    → ℕ
    → OpsDisputeView
    → Dict OpsDisputeView
    → Result DisputeError OpsDisputeView × Dict OpsDisputeView
transition_view id status now v d =
    if status == v.status
    then (ok v, d)
    else if not (contains status (portal_transitions v.status))
    then (err (invalid_transition v.status status), d)
    else (let updated = record v { status = status; updated_at = now } in
        (ok updated, insert id updated d))

-- `transition_dispute`, on the table of the disputes
unfoldable pub transition_dispute :
    String
    → DisputeStatus
    → ℕ
    → Dict OpsDisputeView
    → Result DisputeError OpsDisputeView × Dict OpsDisputeView
unfolding transition_view
transition_dispute id status now d = elim (lookup id d) [
  | none ↦ (err DisputeError.not_found, d)
  | some v ↦ transition_view id status now v d
]

-- `save_audit_event`: to the end of the transaction's list
unfoldable pub save_audit_event : OpsAuditEventView → FiOpsRepository → FiOpsRepository
save_audit_event e repo =
    let earlier = get_or (lookup e.transaction_id repo.audit_events) [] in
    record repo { audit_events = insert e.transaction_id (earlier ++ (e ∷ [])) repo.audit_events }

unfoldable pub audit_events_for : String → FiOpsRepository → List OpsAuditEventView
audit_events_for id repo = get_or (lookup id repo.audit_events) []

unfoldable pub save_ops_transaction : OpsTransactionView → FiOpsRepository → FiOpsRepository
save_ops_transaction v repo = record repo {
  transactions = insert v.transaction_id v repo.transactions;
}

unfoldable pub save_ops_dispute : OpsDisputeView → FiOpsRepository → FiOpsRepository
save_ops_dispute v repo = record repo { disputes = insert v.dispute_id v repo.disputes }

unfoldable pub save_transaction_state : OpsTransactionStateView → FiOpsRepository → FiOpsRepository
save_transaction_state s repo = record repo {
  transaction_states = insert s.transaction_id s repo.transaction_states;
}

unfoldable pub build_regulatory_report : ℕ → FiOpsRepository → RegulatoryReport
build_regulatory_report now repo =
    let payments = values repo.transactions in
    let claims_made = values repo.disputes in
    record {
      generated_at = now;
      transaction_count = length payments;
      dispute_count = length claims_made;
      disputed_amount_minor = sum (map (λ (v : OpsDisputeView). v.amount_minor) claims_made);
      blocked_transaction_count = count_if (λ v. v.risk_band == RiskBand.block) payments;
    }
