-- ===== src/Tests/Cases.antt =====
-- The theorems of the dispute engine and of the operations portal.
use veri_pay.Common.{none, ok, refl, true, ◌<◌, ◌≡◌, ◌≤◌, ◌⊎◌}
use veri_pay.FiOps.{transition_dispute}
use veri_pay.FiOps.Refinement.{transition_dispute-transition, view_answer, view_cases}
use veri_pay.DisputeEngine.{
  transition, DisputeCase, DisputeSyncStatus, Disputes, create, transition_case,
}
use veri_pay.DisputeEngine.Invariant.{Runs, Runs-IsValid, creates, empty_disputes, start, then_step}
use veri_pay.DisputeEngine.Lifecycle.{Reaches-stage, here, moves, next, stage}
use veri_pay.DisputeEngine.Repository.{IsValid}
use veri_pay.Enums.Dispute.{DisputeReason, DisputeStatus}

abbrev opened_case : DisputeCase
opened_case = record {
  dispute_id = "d-1";
  transaction_id = "txn-1";
  merchant_id = none;
  amount_minor = 12500;
  currency = "USD";
  status = DisputeStatus.opened;
  reason = DisputeReason.fraud;
  idempotency_key = "key-1";
  opened_at = 1000;
  updated_at = 1000;
}

abbrev accepted_case : DisputeCase
accepted_case = record opened_case { status = DisputeStatus.accepted; updated_at = 2000 }

test_accepted : transition_case DisputeStatus.accepted 2000 opened_case ≡ ok (accepted_case, true)
unfolding transition_case
test_accepted = refl

Reaches-stage_example :
    (stage opened_case.status ≤ stage accepted_case.status)
    × ((stage opened_case.status < 3) ⊎ (accepted_case ≡ opened_case))
Reaches-stage_example =
    Reaches-stage
      (next here (moves DisputeStatus.accepted 2000 true opened_case accepted_case test_accepted))

abbrev disputes : Disputes
disputes = (create opened_case empty_disputes).1

created-Runs : Runs empty_disputes disputes
created-Runs = then_step start (creates opened_case empty_disputes)

Runs-IsValid_example : IsValid disputes
Runs-IsValid_example = Runs-IsValid created-Runs

abbrev sync : DisputeCase → DisputeSyncStatus
sync c = DisputeSyncStatus.pending

transition_dispute-transition_example :
    transition_dispute "d-1" DisputeStatus.accepted 2000 (view_cases disputes.cases) ≡ (
      view_answer (transition "d-1" DisputeStatus.accepted 2000 disputes).0,
      view_cases (transition "d-1" DisputeStatus.accepted 2000 disputes).1.cases,
    )
transition_dispute-transition_example =
    transition_dispute-transition "d-1" DisputeStatus.accepted 2000 disputes
      (Runs-IsValid created-Runs)
