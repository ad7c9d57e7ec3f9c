-- ===== src/DisputeEngine/Invariant.antt =====
-- Every call of the dispute engine keeps the tables of its repository consistent.
use veri_pay.Common.{
  All-insert, All-lookup, Bool, Bool-cases, Option, Option-cases, Result, String, [], ap, err,
  false, inl, inr, is_some, lookup, none, ok, refl, some, some-injective, string_eq, sym, true, ℕ,
  ◌==◌, ◌∙◌, ◌≡◌,
}
use veri_pay.DisputeEngine.{
  DisputeCase, DisputeError, Disputes, EvidenceSubmission, add_evidence, create, store_evidence,
  transition, transition_case, transition_found,
}
use veri_pay.DisputeEngine.Lifecycle.{transition_case_lem}
use veri_pay.DisputeEngine.Repository.{IsValid, added-IsValid, create_lem, save-IsValid}
use veri_pay.Enums.Dispute.{DisputeStatus}

create-IsValid : (c : DisputeCase) (d : Disputes) → IsValid d → IsValid (create c d).1
create-IsValid c d v = elim (create_lem c d v) [
  | inl (b, _, _, answer) ↦ rw answer v
  | inr (inl (e, _, _, answer)) ↦ rw answer v
  | inr (inr (_, free, _, answer)) ↦ rw answer (added-IsValid c d free v)
]

transition_found-IsValid :
    (id : String) (status : DisputeStatus) (now : ℕ) (c : DisputeCase) (d : Disputes)
    → lookup id d.cases ≡ some c
    → IsValid d
    → IsValid (transition_found status now c d).1
unfolding transition_found
transition_found-IsValid id status now c d found v = go (transition_case status now c) refl
  where
    successor :
        (c' : DisputeCase) (changed : Bool)
        → transition_case status now c ≡ ok (c', changed)
        → (b : DisputeCase) → lookup c'.dispute_id d.cases ≡ some b
        → c'.idempotency_key ≡ b.idempotency_key
    successor c' changed h b again =
        let (_, same, _) = transition_case_lem status now c c' changed h in
        let key : id ≡ c.dispute_id =
          All-lookup (λ (e : String × DisputeCase). e.0 ≡ e.1.dispute_id) id c d.cases v.keyed
            found in
        let e : c ≡ b =
          some-injective c b
            (sym found ∙ ap (λ k. lookup k d.cases) (key ∙ sym same.dispute_id) ∙ again) in
        same.idempotency_key ∙ ap (λ x. x.idempotency_key) e

    go :
        (o : Result DisputeError (DisputeCase × Bool))
        → transition_case status now c ≡ o
        → IsValid (transition_found status now c d).1
    go (err e) h = rw (h, transition_found) v
    go (ok (c', true)) h =
        rw (h, transition_found) (save-IsValid c' d (λ b again. successor c' true h b again) v)
    go (ok (c', false)) h = rw (h, transition_found) v

transition-IsValid :
    (id : String) (status : DisputeStatus) (now : ℕ) (d : Disputes)
    → IsValid d
    → IsValid (transition id status now d).1
unfolding transition
transition-IsValid id status now d v = elim (Option-cases (lookup id d.cases)) [
  | inl missing ↦ rw (missing, transition) v
  | inr (c, found) ↦ rw (found, transition) (transition_found-IsValid id status now c d found v)
]

store_evidence-IsValid :
    (e : EvidenceSubmission) (d : Disputes)
    → is_some (lookup e.dispute_id d.cases) ≡ true
    → IsValid d
    → IsValid (store_evidence e d).1
unfolding store_evidence
store_evidence-IsValid e d belongs v = elim (Option-cases (lookup e.evidence_id d.evidence)) [
  | inr (old, known) ↦ rw (known, store_evidence) v
  | inl new ↦
      rw (new, store_evidence)
        (record {
          keyed = v.keyed;
          keys_lead = v.keys_lead;
          evidence_belongs =
              All-insert
                (λ (x : String × EvidenceSubmission).
                  is_some (lookup x.1.dispute_id d.cases) ≡ true)
                e.evidence_id e d.evidence belongs v.evidence_belongs;
        })
]

add_evidence-IsValid :
    (id : String) (e : EvidenceSubmission) (d : Disputes)
    → IsValid d
    → IsValid (add_evidence id e d).1
unfolding add_evidence
add_evidence-IsValid id e d v = elim (Bool-cases (is_some (lookup id d.cases))) [
  | inr missing ↦ rw missing v
  | inl stored ↦ elim (Bool-cases (e.dispute_id == id)) [
    | inr other ↦ rw (stored, other) v
    | inl same ↦
        let belongs : is_some (lookup e.dispute_id d.cases) ≡ true =
          ap (λ k. is_some (lookup k d.cases)) ((string_eq.beq_iff e.dispute_id id).0 same)
          ∙ stored in
        rw (stored, same) (store_evidence-IsValid e d belongs v)
  ]
]

-- The calls of the service, with any arguments.
pub data Step : Disputes → Disputes → Type 0 where
  creates : (c : DisputeCase) (d : Disputes) → Step d (create c d).1
  transitions :
      (id : String) (status : DisputeStatus) (now : ℕ) (d : Disputes)
      → Step d (transition id status now d).1
  adds_evidence :
      (id : String) (e : EvidenceSubmission) (d : Disputes) → Step d (add_evidence id e d).1

pub data Runs : Disputes → Disputes → Type 0 where
  start : {d : Disputes} → Runs d d
  then_step : {a b c : Disputes} → Runs a b → Step b c → Runs a c

Step-IsValid : {a b : Disputes} → Step a b → IsValid a → IsValid b
Step-IsValid (creates c d) v = create-IsValid c d v
Step-IsValid (transitions id status now d) v = transition-IsValid id status now d v
Step-IsValid (adds_evidence id e d) v = add_evidence-IsValid id e d v

abbrev pub empty_disputes : Disputes
empty_disputes = record { cases = []; by_idempotency_key = []; evidence = [] }

empty-IsValid : IsValid empty_disputes
empty-IsValid = record { keyed = tt; keys_lead = tt; evidence_belongs = tt }

-- After any calls on the empty repository, accepted or refused, the tables are consistent: cases and
-- keys agree, and evidence belongs to stored cases.
pub Runs-IsValid : {d : Disputes} → Runs empty_disputes d → IsValid d
Runs-IsValid start = empty-IsValid
Runs-IsValid (then_step before step) = Step-IsValid step (Runs-IsValid before)

known_unknown : {o : Option String} {id : String} → o ≡ some id → o ≡ none → ⊥
known_unknown known unknown = cc

-- In a repository that calls made from the empty one, a creation under a key that was used already, however the new case differs,
-- changes nothing and returns a stored case that was created under the key.
pub create_again :
    (c : DisputeCase) (d : Disputes) (id : String)
    → Runs empty_disputes d
    → lookup c.idempotency_key d.by_idempotency_key ≡ some id
    → (b : DisputeCase) × (b.idempotency_key ≡ c.idempotency_key)
      × (lookup b.dispute_id d.cases ≡ some b)
      × (create c d ≡ (ok b, d))
create_again c d id runs known = elim (create_lem c d (Runs-IsValid runs)) [
  | inl found ↦ found
  | inr (inl (e, unknown, _, _)) ↦ absurd (known_unknown known unknown)
  | inr (inr (unknown, _, _, _)) ↦ absurd (known_unknown known unknown)
]
