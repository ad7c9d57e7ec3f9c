-- ===== src/BusinessPortal.antt =====
-- services/business_portal/veripay_business_portal/service.py: the repository of the business portal and
-- its dispute transitions. The clock reading of a call is an argument. A refusal is the error of the
-- dispute engine that has the same text.
pub mod Mirror
use veri_pay.Common.{
  Bool, Dict, List, Option, Result, String, [], contains, erase, err, filter, get_or, if◌then◌else◌,
  insert, is_some, list_eq, lookup, nat_eq, none, not, ok, option_eq, some, string_eq, values, ℕ,
  ◌==◌, ◌∷◌,
}
use veri_pay.DisputeEngine.{DisputeError, dispute_sync_status_eq, invalid_transition}
use veri_pay.Enums.Dispute.{DisputeReason, DisputeStatus, dispute_reason_eq, dispute_status_eq}
use veri_pay.Enums.Payment.{
  channel_eq, payment_rail_eq, processing_path_eq, verification_outcome_eq,
}
use veri_pay.Enums.Risk.{DecisionAction, RiskBand, decision_action_eq, risk_band_eq, risk_tier_eq}
use veri_pay.Enums.Token.{token_status_eq}
use veri_pay.Enums.Trust.{
  device_platform_eq, device_trust_state_eq, gpv_outcome_eq, sca_exemption_eq,
}

-- `WebhookDecision`
pub data WebhookDecision : Type 0 where
  allow block verify : WebhookDecision

pub record BusinessTransactionView : Type 0 where
  pub transaction_id : String
  pub merchant_id : String
  pub amount_minor : ℕ
  pub currency : String
  pub risk_band : RiskBand
  pub decision : DecisionAction
  pub status : String
  pub created_at : ℕ

pub record SpendSummary : Type 0 where
  pub merchant_id : String
  pub period : String
  pub spent_minor : ℕ
  pub limit_minor : Option ℕ
  pub remaining_minor : Option ℕ
  pub currency : String

pub record BusinessPolicyView : Type 0 where
  pub lock_id : String
  pub merchant_id : String
  pub allowed_mccs : Option String
  pub max_spend_per_txn_minor : Option ℕ
  pub daily_spend_limit_minor : Option ℕ
  pub enforce_merchant_lock : Bool

pub record BusinessDisputeView : Type 0 where
  pub dispute_id : String
  pub transaction_id : String
  pub merchant_id : Option String
  pub amount_minor : ℕ
  pub currency : String
  pub status : DisputeStatus
  pub reason : DisputeReason
  pub updated_at : ℕ

pub record WebhookStatusView : Type 0 where
  pub event_id : String
  pub merchant_id : String
  pub decision : WebhookDecision
  pub delivery_status : String
  pub attempts : ℕ
  pub last_error : Option String
  pub updated_at : ℕ

-- The summaries of a pair of a merchant and a period stand under the merchant, then the period.
pub record BusinessRepository : Type 0 where
  pub transactions : Dict BusinessTransactionView
  pub spend_summaries : Dict (Dict SpendSummary)
  pub policies : Dict BusinessPolicyView
  pub disputes : Dict BusinessDisputeView
  pub webhooks : Dict WebhookStatusView

-- A list that is for a merchant, when the call names one
abbrev pub for_merchant : {A : Type 0} → (A → Option String) → Option String → List A → List A
for_merchant owner none xs = xs
for_merchant owner (some merchant) xs = filter (λ x. owner x == some merchant) xs

unfoldable pub save_business_transaction :
    BusinessTransactionView → BusinessRepository → BusinessRepository
save_business_transaction v repo = record repo {
  transactions = insert v.transaction_id v repo.transactions;
}

unfoldable pub list_business_transactions :
    Option String → BusinessRepository → List BusinessTransactionView
list_business_transactions merchant repo =
    for_merchant (λ (v : BusinessTransactionView). some v.merchant_id) merchant
      (values repo.transactions)

unfoldable pub save_spend_summary : SpendSummary → BusinessRepository → BusinessRepository
save_spend_summary s repo =
    let periods = get_or (lookup s.merchant_id repo.spend_summaries) [] in
    record repo {
      spend_summaries = insert s.merchant_id (insert s.period s periods) repo.spend_summaries;
    }

unfoldable pub get_spend_summary : String → String → BusinessRepository → Option SpendSummary
get_spend_summary merchant period repo =
    lookup period (get_or (lookup merchant repo.spend_summaries) [])

unfoldable pub save_business_policy : BusinessPolicyView → BusinessRepository → BusinessRepository
save_business_policy p repo = record repo { policies = insert p.lock_id p repo.policies }

unfoldable pub list_business_policies : Option String → BusinessRepository → List BusinessPolicyView
list_business_policies merchant repo =
    for_merchant (λ (p : BusinessPolicyView). some p.merchant_id) merchant (values repo.policies)

unfoldable pub delete_business_policy : String → BusinessRepository → Bool × BusinessRepository
delete_business_policy lock_id repo =
    (is_some (lookup lock_id repo.policies), record repo { policies = erase lock_id repo.policies })

unfoldable pub save_business_dispute : BusinessDisputeView → BusinessRepository → BusinessRepository
save_business_dispute v repo = record repo { disputes = insert v.dispute_id v repo.disputes }

unfoldable pub list_business_disputes :
    Option String → BusinessRepository → List BusinessDisputeView
list_business_disputes merchant repo =
    for_merchant (λ (v : BusinessDisputeView). v.merchant_id) merchant (values repo.disputes)

unfoldable pub save_webhook : WebhookStatusView → BusinessRepository → BusinessRepository
save_webhook w repo = record repo { webhooks = insert w.event_id w repo.webhooks }

unfoldable pub list_webhooks : Option String → BusinessRepository → List WebhookStatusView
list_webhooks merchant repo =
    for_merchant (λ (w : WebhookStatusView). some w.merchant_id) merchant (values repo.webhooks)

unfoldable pub business_transitions : DisputeStatus → List DisputeStatus
business_transitions DisputeStatus.opened =
    DisputeStatus.represented ∷ DisputeStatus.accepted ∷ DisputeStatus.expired ∷ []
business_transitions DisputeStatus.represented =
    DisputeStatus.accepted ∷ DisputeStatus.reversed ∷ DisputeStatus.expired ∷ []
business_transitions DisputeStatus.accepted = DisputeStatus.reversed ∷ DisputeStatus.expired ∷ []
business_transitions DisputeStatus.reversed = []
business_transitions DisputeStatus.expired = []

-- `transition_dispute` of a known dispute
unfoldable pub transition_known :
    String
    → DisputeStatus
    → ℕ
    → BusinessDisputeView
    → Dict BusinessDisputeView
    → Result DisputeError BusinessDisputeView × Dict BusinessDisputeView
transition_known id status now v d =
    if status == v.status
    then (ok v, d)
    else if not (contains status (business_transitions v.status))
    then (err (invalid_transition v.status status), d)
    else (let updated = record v { status = status; updated_at = now } in
        (ok updated, insert id updated d))

-- `transition_dispute`, on the table of the disputes
unfoldable pub transition_business :
    String
    → DisputeStatus
    → ℕ
    → Dict BusinessDisputeView
    → Result DisputeError BusinessDisputeView × Dict BusinessDisputeView
unfolding transition_known
transition_business id status now d = elim (lookup id d) [
  | none ↦ (err DisputeError.not_found, d)
  | some v ↦ transition_known id status now v d
]
