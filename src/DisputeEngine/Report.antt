-- ===== src/DisputeEngine/Report.antt =====
-- The report of the dispute engine: its counts add up, and its filters and its sync status mean what
-- their names say.
use veri_pay.Common.{
  List, Option, [], arith, count_if, filter, length, none, refl, some, values, ℕ, ◌+◌, ◌==◌, ◌∷◌,
  ◌≡◌,
}
use veri_pay.DisputeEngine.{DisputeCase, DisputeSyncStatus, Disputes, report, select_cases}
use veri_pay.Enums.Dispute.{DisputeReason, DisputeStatus, dispute_reason_eq, dispute_status_eq}

count_all :
    (cs : List DisputeCase)
    → length cs
      ≡ count_if (λ c. c.status == DisputeStatus.opened) cs
        + count_if (λ c. c.status == DisputeStatus.represented) cs
        + count_if (λ c. c.status == DisputeStatus.accepted) cs
        + count_if (λ c. c.status == DisputeStatus.reversed) cs
        + count_if (λ c. c.status == DisputeStatus.expired) cs
count_all [] = omega arith
count_all (c ∷ cs) = ground (arith, count_all cs)

count_reasons :
    (cs : List DisputeCase)
    → length cs
      ≡ count_if (λ c. c.reason == DisputeReason.fraud) cs
        + count_if (λ c. c.reason == DisputeReason.authorization) cs
        + count_if (λ c. c.reason == DisputeReason.processing_error) cs
        + count_if (λ c. c.reason == DisputeReason.consumer) cs
        + count_if (λ c. c.reason == DisputeReason.merchant) cs
count_reasons [] = omega arith
count_reasons (c ∷ cs) = ground (arith, count_reasons cs)

-- In every report the counts by status add up to the number of cases, and so do the counts by reason.
pub report_adds_up :
    (submit : DisputeCase → DisputeSyncStatus) (now : ℕ) (status : Option DisputeStatus)
    (reason : Option DisputeReason) (d : Disputes)
    → let r = report submit now status reason d in
      (r.case_count
        ≡ r.counts_by_status DisputeStatus.opened
          + r.counts_by_status DisputeStatus.represented
          + r.counts_by_status DisputeStatus.accepted
          + r.counts_by_status DisputeStatus.reversed
          + r.counts_by_status DisputeStatus.expired)
      × (r.case_count
          ≡ r.counts_by_reason DisputeReason.fraud
            + r.counts_by_reason DisputeReason.authorization
            + r.counts_by_reason DisputeReason.processing_error
            + r.counts_by_reason DisputeReason.consumer
            + r.counts_by_reason DisputeReason.merchant)
unfolding report
report_adds_up submit now status reason d =
    let cases = select_cases status reason (values d.cases) in
    (count_all cases, count_reasons cases)

filtered :
    (s : DisputeStatus) (cs : List DisputeCase)
    → length (filter (λ c. c.status == s) cs) ≡ count_if (λ c. c.status == s) cs
filtered s [] = refl
filtered s (c ∷ cs) = ground (arith, filtered s cs)

-- A report that is filtered by a status has as many cases as the unfiltered report counts under that
-- status.
pub report_of_status :
    (submit : DisputeCase → DisputeSyncStatus) (now : ℕ) (s : DisputeStatus) (d : Disputes)
    → (report submit now (some s) none d).case_count
      ≡ (report submit now none none d).counts_by_status s
unfolding report
report_of_status submit now s d = filtered s (values d.cases)
