-- ===== src/DisputeEngine.antt =====
-- services/dispute_engine/veripay_dispute_engine/service.py: the repository of disputes, their
-- status machine, evidence and the report. The clock is an argument, the sync provider a parameter.
pub mod Lifecycle
pub mod Repository
pub mod Invariant
pub mod Report
use veri_pay.Common.{
  Bool, Dict, Eq, List, Option, Result, String, [], arith, contains, count_if, err, false, filter,
  if◌then◌else◌, insert, is_some, length, lookup, map, nat_beq, none, not, ok, or_raise, some,
  string_eq, sum, true, values, ℕ, ◌==◌, ◌↔◌, ◌∷◌, ◌≡◌,
}
use veri_pay.Enums.Dispute.{DisputeReason, DisputeStatus, dispute_reason_eq, dispute_status_eq}

pub data DisputeSyncStatus : Type 0 where
  pending submitted failed : DisputeSyncStatus

abbrev pub sync_index : DisputeSyncStatus → ℕ
sync_index DisputeSyncStatus.pending = 0
sync_index DisputeSyncStatus.submitted = 1
sync_index DisputeSyncStatus.failed = 2

pub sync_beq_iff :
    (a b : DisputeSyncStatus) → (nat_beq (sync_index a) (sync_index b) ≡ true) ↔ (a ≡ b)
sync_beq_iff a b = ground arith

instance abbrev pub dispute_sync_status_eq : Eq DisputeSyncStatus
dispute_sync_status_eq = record {
  beq = λ a b. nat_beq (sync_index a) (sync_index b);
  beq_iff = sync_beq_iff;
}

pub record DisputeCase : Type 0 where
  pub dispute_id : String
  pub transaction_id : String
  pub merchant_id : Option String
  pub amount_minor : ℕ
  pub currency : String
  pub status : DisputeStatus
  pub reason : DisputeReason
  pub idempotency_key : String
  pub opened_at : ℕ
  pub updated_at : ℕ

pub record EvidenceSubmission : Type 0 where
  pub evidence_id : String
  pub dispute_id : String
  pub evidence_type : String
  pub provider_reference : String
  pub submitted_by : String
  pub submitted_at : ℕ

pub record DisputeReport : Type 0 where
  pub generated_at : ℕ
  pub case_count : ℕ
  pub amount_minor : ℕ
  pub counts_by_status : DisputeStatus → ℕ
  pub counts_by_reason : DisputeReason → ℕ
  pub sync_status : DisputeSyncStatus

-- `missing_case` is the `KeyError` of `self.cases[existing_id]`.
pub data DisputeError : Type 0 where
  missing_case duplicate_id not_opened not_found path_mismatch : DisputeError
  invalid_transition : DisputeStatus → DisputeStatus → DisputeError

pub record Disputes : Type 0 where
  pub cases : Dict DisputeCase
  pub by_idempotency_key : Dict String
  pub evidence : Dict EvidenceSubmission

-- `InMemoryDisputeRepository.create`, which `DisputeService.create` calls
unfoldable pub create : DisputeCase → Disputes → Result DisputeError DisputeCase × Disputes
create c d = elim (lookup c.idempotency_key d.by_idempotency_key) [
  | some id ↦ (or_raise (lookup id d.cases) missing_case, d)
  | none ↦
      if is_some (lookup c.dispute_id d.cases)
      then (err duplicate_id, d)
      else if not (c.status == DisputeStatus.opened)
      then (err not_opened, d)
      else (
        ok c,
        record d {
          cases = insert c.dispute_id c d.cases;
          by_idempotency_key = insert c.idempotency_key c.dispute_id d.by_idempotency_key;
        },
      )
]

-- `_ALLOWED_TRANSITIONS`
unfoldable pub allowed_transitions : DisputeStatus → List DisputeStatus
allowed_transitions DisputeStatus.opened =
    DisputeStatus.represented ∷ DisputeStatus.accepted ∷ DisputeStatus.expired ∷ []
allowed_transitions DisputeStatus.represented =
    DisputeStatus.accepted ∷ DisputeStatus.reversed ∷ DisputeStatus.expired ∷ []
allowed_transitions DisputeStatus.accepted = DisputeStatus.reversed ∷ DisputeStatus.expired ∷ []
allowed_transitions DisputeStatus.reversed = []
allowed_transitions DisputeStatus.expired = []

-- `transition` of a stored case: the case to return, and whether it is saved.
unfoldable pub transition_case :
    DisputeStatus → ℕ → DisputeCase → Result DisputeError (DisputeCase × Bool)
unfolding allowed_transitions
transition_case status now c =
    if status == c.status
    then ok (c, false)
    else if not (contains status (allowed_transitions c.status))
    then err (invalid_transition c.status status)
    else ok (record c { status = status; updated_at = now }, true)

unfoldable pub save : DisputeCase → Disputes → Disputes
save c d = record d { cases = insert c.dispute_id c d.cases }

unfoldable pub transition_found :
    DisputeStatus → ℕ → DisputeCase → Disputes → Result DisputeError DisputeCase × Disputes
unfolding transition_case save
transition_found status now c d = elim (transition_case status now c) [
  | err e ↦ (err e, d)
  | ok (c', changed) ↦ (ok c', if changed then save c' d else d)
]

unfoldable pub transition :
    String → DisputeStatus → ℕ → Disputes → Result DisputeError DisputeCase × Disputes
unfolding transition_found
transition id status now d = elim (lookup id d.cases) [
  | none ↦ (err not_found, d)
  | some c ↦ transition_found status now c d
]

-- `InMemoryDisputeRepository.add_evidence`
unfoldable pub store_evidence : EvidenceSubmission → Disputes → EvidenceSubmission × Disputes
store_evidence e d = elim (lookup e.evidence_id d.evidence) [
  | some existing ↦ (existing, d)
  | none ↦ (e, record d { evidence = insert e.evidence_id e d.evidence })
]

unfoldable pub add_evidence :
    String → EvidenceSubmission → Disputes → Result DisputeError EvidenceSubmission × Disputes
unfolding store_evidence
add_evidence id e d =
    if not (is_some (lookup id d.cases))
    then (err not_found, d)
    else if not (e.dispute_id == id)
    then (err path_mismatch, d)
    else let (stored, d') = store_evidence e d in (ok stored, d')

-- The two optional filters of `report`, and of the listing handler.
unfoldable pub select_cases :
    Option DisputeStatus → Option DisputeReason → List DisputeCase → List DisputeCase
select_cases status reason cs =
    let by_status : List DisputeCase = elim status [
      | none ↦ cs
      | some s ↦ filter (λ c. c.status == s) cs
    ] in
    elim reason [ none ↦ by_status | some w ↦ filter (λ c. c.reason == w) by_status ]

unfoldable pub overall_sync : List DisputeSyncStatus → DisputeSyncStatus
overall_sync results =
    if contains DisputeSyncStatus.failed results
    then DisputeSyncStatus.failed
    else if contains DisputeSyncStatus.pending results
    then DisputeSyncStatus.pending
    else DisputeSyncStatus.submitted

unfoldable pub report :
    (DisputeCase → DisputeSyncStatus)
    → ℕ
    → Option DisputeStatus
    → Option DisputeReason
    → Disputes
    → DisputeReport
unfolding select_cases overall_sync
report submit now status reason d =
    let cases = select_cases status reason (values d.cases) in
    record {
      generated_at = now;
      case_count = length cases;
      amount_minor = sum (map (λ (c : DisputeCase). c.amount_minor) cases);
      counts_by_status = λ s. count_if (λ c. c.status == s) cases;
      counts_by_reason = λ w. count_if (λ c. c.reason == w) cases;
      sync_status = overall_sync (map submit cases);
    }
