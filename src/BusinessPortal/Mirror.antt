-- ===== src/BusinessPortal/Mirror.antt =====
-- What the repository of the business portal keeps apart and gives back.
use veri_pay.BusinessPortal.{
  BusinessDisputeView, BusinessRepository, SpendSummary, business_transitions, get_spend_summary,
  save_spend_summary, transition_business, transition_known,
}
use veri_pay.Common.{
  Bool-cases, Dict, Option, Option-cases, Result, String, [], ap, arith, contains, err, false,
  get_or, inl, inr, insert, list_eq, lookup, lookup-insert_other, lookup-insert_same, nat_eq, none,
  ok, option_eq, refl, some, string_eq, sym, text_refl, ℕ, ◌&&◌, ◌==◌, ◌∙◌, ◌∷◌, ◌≡◌,
}
use veri_pay.DisputeEngine.{DisputeError, dispute_sync_status_eq}
use veri_pay.Enums.Dispute.{DisputeStatus, dispute_reason_eq, dispute_status_eq}
use veri_pay.Enums.Payment.{
  channel_eq, payment_rail_eq, processing_path_eq, verification_outcome_eq,
}
use veri_pay.Enums.Risk.{decision_action_eq, risk_band_eq, risk_tier_eq}
use veri_pay.Enums.Token.{token_status_eq}
use veri_pay.Enums.Trust.{
  device_platform_eq, device_trust_state_eq, gpv_outcome_eq, sca_exemption_eq,
}
use veri_pay.FiOps.{OpsDisputeView, portal_transitions, transition_dispute, transition_view}

-- The two portals allow the same transitions.
business_transitions-portal_transitions :
    (s : DisputeStatus) → business_transitions s ≡ portal_transitions s
unfolding business_transitions portal_transitions
business_transitions-portal_transitions s = ground arith

-- A summary is read back under its merchant and its period.
get_spend_summary-save_spend_summary :
    (s : SpendSummary) (repo : BusinessRepository)
    → get_spend_summary s.merchant_id s.period (save_spend_summary s repo) ≡ some s
unfolding get_spend_summary save_spend_summary
get_spend_summary-save_spend_summary s repo =
    rw
      (lookup-insert_same s.merchant_id s.merchant_id
        (insert s.period s (get_or (lookup s.merchant_id repo.spend_summaries) []))
        repo.spend_summaries (text_refl s.merchant_id))
      (lookup-insert_same s.period s.period s
        (get_or (lookup s.merchant_id repo.spend_summaries) []) (text_refl s.period))

-- The summaries of any other pair of a merchant and a period stay as they are.
get_spend_summary-save_spend_summary_other :
    (s : SpendSummary) (repo : BusinessRepository) (merchant period : String)
    → ((s.merchant_id == merchant) && (s.period == period)) ≡ false
    → get_spend_summary merchant period (save_spend_summary s repo)
      ≡ get_spend_summary merchant period repo
unfolding get_spend_summary save_spend_summary
get_spend_summary-save_spend_summary_other s repo merchant period h =
    let earlier = get_or (lookup s.merchant_id repo.spend_summaries) [] in
    elim (Bool-cases (s.merchant_id == merchant)) [
      | inl e ↦
          rw
            (lookup-insert_same s.merchant_id merchant (insert s.period s earlier)
              repo.spend_summaries e)
            (lookup-insert_other s.period period s earlier (rw e at h)
              ∙ ap (λ m. lookup period (get_or (lookup m repo.spend_summaries) []))
                  ((string_eq.beq_iff s.merchant_id merchant).0 e))
      | inr e ↦
          rw
            (lookup-insert_other s.merchant_id merchant (insert s.period s earlier)
              repo.spend_summaries e)
            refl
    ]

-- What the operations portal shows of the dispute.
abbrev pub as_ops : BusinessDisputeView → OpsDisputeView
as_ops v = record {
  dispute_id = v.dispute_id;
  transaction_id = v.transaction_id;
  merchant_id = v.merchant_id;
  amount_minor = v.amount_minor;
  currency = v.currency;
  status = v.status;
  reason = v.reason;
  updated_at = v.updated_at;
}

abbrev pub as_ops_table : Dict BusinessDisputeView → Dict OpsDisputeView
as_ops_table [] = []
as_ops_table ((k, v) ∷ d) = (k, as_ops v) ∷ as_ops_table d

abbrev pub as_ops_answer :
    Result DisputeError BusinessDisputeView × Dict BusinessDisputeView
    → Result DisputeError OpsDisputeView × Dict OpsDisputeView
as_ops_answer (ok v, d) = (ok (as_ops v), as_ops_table d)
as_ops_answer (err e, d) = (err e, as_ops_table d)

as_ops_table-insert :
    (id : String) (v : BusinessDisputeView) (d : Dict BusinessDisputeView)
    → as_ops_table (insert id v d) ≡ insert id (as_ops v) (as_ops_table d)
unfolding insert
as_ops_table-insert id v [] = refl
as_ops_table-insert id v ((k, w) ∷ d) = ground (arith, as_ops_table-insert id v d)

abbrev pub shown : Option BusinessDisputeView → Option OpsDisputeView
shown none = none
shown (some v) = some (as_ops v)

lookup-as_ops_table :
    (id : String) (d : Dict BusinessDisputeView) → lookup id (as_ops_table d) ≡ shown (lookup id d)
unfolding lookup
lookup-as_ops_table id [] = refl
lookup-as_ops_table id ((k, w) ∷ d) = ground (arith, lookup-as_ops_table id d)

transition_known-transition_view :
    (id : String) (status : DisputeStatus) (now : ℕ) (v : BusinessDisputeView)
    (d : Dict BusinessDisputeView)
    → transition_view id status now (as_ops v) (as_ops_table d)
      ≡ as_ops_answer (transition_known id status now v d)
unfolding transition_view transition_known
transition_known-transition_view id status now v d = elim (Bool-cases (status == v.status)) [
  | inl e ↦ rw e refl
  | inr e ↦ elim (Bool-cases (contains status (business_transitions v.status))) [
    | inl c ↦
        rw (e, ← business_transitions-portal_transitions v.status, c)
          (ap (λ t. (ok (as_ops (record v { status = status; updated_at = now })), t))
            (sym (as_ops_table-insert id (record v { status = status; updated_at = now }) d)))
    | inr c ↦ rw (e, ← business_transitions-portal_transitions v.status, c) refl
  ]
]

-- The business portal makes the transitions of the operations portal, with the same refusals.
transition_business-transition_dispute :
    (id : String) (status : DisputeStatus) (now : ℕ) (d : Dict BusinessDisputeView)
    → transition_dispute id status now (as_ops_table d)
      ≡ as_ops_answer (transition_business id status now d)
unfolding transition_dispute transition_business
transition_business-transition_dispute id status now d = elim (Option-cases (lookup id d)) [
  | inl e ↦ rw (transition_dispute, transition_business, lookup-as_ops_table id d, e) refl
  | inr (v, e) ↦
      rw (transition_dispute, transition_business, lookup-as_ops_table id d, e)
        (transition_known-transition_view id status now v d)
]
