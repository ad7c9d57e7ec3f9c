-- ===== src/FiOps/Refinement.antt =====
-- The portal's dispute transitions are those of the dispute engine, seen through the portal's view.
use veri_pay.Common.{
  All-lookup, Bool-cases, Dict, Option-cases, Result, String, [], ap, arith, contains, err, inl,
  inr, insert, lookup, none, ok, refl, some, some-injective, string_eq, sym, ℕ, ◌==◌, ◌∙◌, ◌∷◌, ◌≡◌,
}
use veri_pay.DisputeEngine.{
  DisputeCase, DisputeError, Disputes, allowed_transitions, save, transition, transition_case,
  transition_found,
}
use veri_pay.DisputeEngine.Repository.{IsValid}
use veri_pay.Enums.Dispute.{DisputeStatus, dispute_status_eq}
use veri_pay.FiOps.{OpsDisputeView, portal_transitions, transition_dispute, transition_view}

-- What the portal shows of a case.
abbrev pub view_of : DisputeCase → OpsDisputeView
view_of c = record {
  dispute_id = c.dispute_id;
  transaction_id = c.transaction_id;
  merchant_id = c.merchant_id;
  amount_minor = c.amount_minor;
  currency = c.currency;
  status = c.status;
  reason = c.reason;
  updated_at = c.updated_at;
}

abbrev pub view_cases : Dict DisputeCase → Dict OpsDisputeView
view_cases [] = []
view_cases ((k, c) ∷ d) = (k, view_of c) ∷ view_cases d

abbrev pub view_answer : Result DisputeError DisputeCase → Result DisputeError OpsDisputeView
view_answer (ok c) = ok (view_of c)
view_answer (err e) = err e

lookup-view_cases :
    (id : String) (d : Dict DisputeCase) (c : DisputeCase)
    → lookup id d ≡ some c
    → lookup id (view_cases d) ≡ some (view_of c)
unfolding lookup
lookup-view_cases id [] c h = cc
lookup-view_cases id ((k, b) ∷ d) c h = elim (Bool-cases (k == id)) [
  | inl e ↦ rw (e) (ap (λ x. some (view_of x)) (some-injective b c (rw (e) at h)))
  | inr e ↦ rw (e) (lookup-view_cases id d c (rw (e) at h))
]

lookup-view_cases_none :
    (id : String) (d : Dict DisputeCase) → lookup id d ≡ none → lookup id (view_cases d) ≡ none
unfolding lookup
lookup-view_cases_none id [] h = refl
lookup-view_cases_none id ((k, b) ∷ d) h = elim (Bool-cases (k == id)) [
  | inl e ↦ absurd (cc (rw (e) at h))
  | inr e ↦ rw (e) (lookup-view_cases_none id d (rw (e) at h))
]

view_cases-insert :
    (id : String) (c : DisputeCase) (d : Dict DisputeCase)
    → view_cases (insert id c d) ≡ insert id (view_of c) (view_cases d)
unfolding insert
view_cases-insert id c [] = refl
view_cases-insert id c ((k, b) ∷ d) = elim (Bool-cases (k == id)) [
  | inl e ↦ rw (e) refl
  | inr e ↦ rw (e) (ap (λ l. (k, view_of b) ∷ l) (view_cases-insert id c d))
]

portal_transitions-allowed_transitions :
    (s : DisputeStatus) → portal_transitions s ≡ allowed_transitions s
unfolding portal_transitions allowed_transitions
portal_transitions-allowed_transitions s = ground arith

written :
    (id : String) (c : DisputeCase) (d : Disputes)
    → id ≡ c.dispute_id
    → ◌≡◌ {A = Result DisputeError OpsDisputeView × Dict OpsDisputeView}
        (ok (view_of c), insert id (view_of c) (view_cases d.cases))
        (ok (view_of c), view_cases (insert c.dispute_id c d.cases))
written id c d same =
    ap (λ l. (ok (view_of c), l))
      (ap (λ k. insert k (view_of c) (view_cases d.cases)) same
        ∙ sym (view_cases-insert c.dispute_id c d.cases))

transition_view-transition_found :
    (id : String) (status : DisputeStatus) (now : ℕ) (c : DisputeCase) (d : Disputes)
    → id ≡ c.dispute_id
    → transition_view id status now (view_of c) (view_cases d.cases) ≡ (
      view_answer (transition_found status now c d).0,
      view_cases (transition_found status now c d).1.cases,
    )
unfolding transition_view transition_found transition_case save
transition_view-transition_found id status now c d same = elim (Bool-cases (status == c.status)) [
  | inl e ↦ rw (e, transition_view, transition_found) refl
  | inr e ↦ elim (Bool-cases (contains status (allowed_transitions c.status))) [
    | inl g ↦
        rw
          (e, portal_transitions-allowed_transitions c.status, g, transition_view, transition_found)
          (written id (record c { status = status; updated_at = now }) d same)
    | inr g ↦
        rw
          (e, portal_transitions-allowed_transitions c.status, g, transition_view, transition_found)
          refl
  ]
]

-- On the view of a consistent repository of the dispute engine, a transition of the portal answers the
-- view of what the engine's transition answers, with the same refusals, and leaves the view of the
-- cases that the engine's transition leaves.
pub transition_dispute-transition :
    (id : String) (status : DisputeStatus) (now : ℕ) (d : Disputes)
    → IsValid d
    → transition_dispute id status now (view_cases d.cases) ≡ (
      view_answer (transition id status now d).0,
      view_cases (transition id status now d).1.cases,
    )
unfolding transition_dispute transition
transition_dispute-transition id status now d v = elim (Option-cases (lookup id d.cases)) [
  | inl e ↦ rw (lookup-view_cases_none id d.cases e, e, transition_dispute, transition) refl
  | inr (c, e) ↦
      let key : id ≡ c.dispute_id =
        All-lookup (λ (x : String × DisputeCase). x.0 ≡ x.1.dispute_id) id c d.cases v.keyed e in
      rw (lookup-view_cases id d.cases c e, e, transition_dispute, transition)
        (transition_view-transition_found id status now c d key)
]
