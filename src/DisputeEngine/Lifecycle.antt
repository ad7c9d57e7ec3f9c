-- ===== src/DisputeEngine/Lifecycle.antt =====
-- The status machine of a dispute in the dispute engine's service.py.
use veri_pay.Common.{Bool, ap, arith, false, inl, inr, ok, refl, true, ℕ, ◌<◌, ◌∙◌, ◌≡◌, ◌≤◌, ◌⊎◌}
use veri_pay.DisputeEngine.{DisputeCase, transition_case}
use veri_pay.Enums.Dispute.{DisputeStatus}

-- One accepted transition request: a status that is asked for again, or an edge of the table.
pub data Moves : DisputeCase → DisputeCase → Type 0 where
  moves :
      (status : DisputeStatus) (now : ℕ) (changed : Bool) (c c' : DisputeCase)
      → transition_case status now c ≡ ok (c', changed)
      → Moves c c'

pub data Reaches : DisputeCase → DisputeCase → Type 0 where
  here : {c : DisputeCase} → Reaches c c
  next : {a b c : DisputeCase} → Reaches a b → Moves b c → Reaches a c

-- How far a dispute has come.
abbrev pub stage : DisputeStatus → ℕ
stage DisputeStatus.opened = 0
stage DisputeStatus.represented = 1
stage DisputeStatus.accepted = 2
stage DisputeStatus.reversed = 3
stage DisputeStatus.expired = 3

-- What a transition leaves alone.
pub record SameCase (c c' : DisputeCase) : Type 0 where
  pub dispute_id : c'.dispute_id ≡ c.dispute_id
  pub transaction_id : c'.transaction_id ≡ c.transaction_id
  pub merchant_id : c'.merchant_id ≡ c.merchant_id
  pub amount_minor : c'.amount_minor ≡ c.amount_minor
  pub currency : c'.currency ≡ c.currency
  pub reason : c'.reason ≡ c.reason
  pub idempotency_key : c'.idempotency_key ≡ c.idempotency_key
  pub opened_at : c'.opened_at ≡ c.opened_at

-- An accepted request ends in the status that it asks for, changes nothing if the case has it
-- already, and otherwise takes the case forward; all but the status and its time stays.
pub transition_case_lem :
    (status : DisputeStatus) (now : ℕ) (c c' : DisputeCase) (changed : Bool)
    → transition_case status now c ≡ ok (c', changed)
    → (c'.status ≡ status)
      × SameCase c c'
      × (((changed ≡ false) × (c' ≡ c))
          ⊎ ((changed ≡ true) × (stage c.status < stage c'.status) × (c'.updated_at ≡ now)))
unfolding transition_case
transition_case_lem status now c c' changed h = (ground arith, ground arith, ground arith)

stage-le : (s : DisputeStatus) → stage s ≤ 3
stage-le s = ground arith

-- One request never takes a case back, and leaves a case of the last stage as it is.
Moves-stage :
    {c c' : DisputeCase}
    → Moves c c'
    → (stage c.status ≤ stage c'.status)
      × (stage c.status ≡ 3 → c' ≡ c)
      × (c'.idempotency_key ≡ c.idempotency_key)
      × (c'.dispute_id ≡ c.dispute_id)
Moves-stage (moves status now changed c c' h) =
    let (_, same, step) = transition_case_lem status now c c' changed h in
    (ground arith, λ e. ground (arith, stage-le c'.status), same.idempotency_key, same.dispute_id)

Reaches-onward :
    {c c' : DisputeCase}
    → Reaches c c'
    → (stage c.status ≤ stage c'.status) × (stage c.status ≡ 3 → c' ≡ c)
Reaches-onward here = (omega arith, λ _. refl)
Reaches-onward (next before step) =
    let (forward, final) = Reaches-onward before in
    let (onward, kept, _, _) = Moves-stage step in
    (
      omega (arith, forward, onward),
      λ e. let back = final e in kept (ap (λ x. stage x.status) back ∙ e) ∙ back,
    )

stage_cases : (s : DisputeStatus) → (stage s < 3) ⊎ (stage s ≡ 3)
stage_cases s = ground arith

-- Whatever transitions are requested, a dispute never returns to an earlier stage, and either it had
-- not yet been reversed or expired, or it stays exactly as it is.
pub Reaches-stage :
    {c c' : DisputeCase}
    → Reaches c c'
    → (stage c.status ≤ stage c'.status) × ((stage c.status < 3) ⊎ (c' ≡ c))
Reaches-stage {c} reached =
    let (forward, final) = Reaches-onward reached in
    (
      forward,
      elim (stage_cases c.status) [ inl open_yet ↦ inl open_yet | inr ended ↦ inr (final ended) ],
    )
