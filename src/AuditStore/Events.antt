-- ===== src/AuditStore/Events.antt =====
-- The audit log only grows, and its identifiers are unique.
use veri_pay.AuditStore.{
  AuditError, AuditEvent, AuditRepository, LlmEvidence, TransactionState, event_exists,
  record_event, record_llm_evidence, save_state,
}
use veri_pay.Common.{
  All, Bool, Bool-cases, List, Result, String, [], any, ap, append-nil, append_assoc, arith, err,
  false, inl, inr, ok, refl, string_eq, subst, sym, true, ◌++◌, ◌==◌, ◌||◌, ◌∙◌, ◌∷◌, ◌≡◌, ◌≢◌,
}

-- No event of the list has the identifier.
abbrev pub IsFresh : String → List AuditEvent → Type 0
IsFresh id events = All (λ event. event.event_id ≢ id) events

-- The identifiers are pairwise different.
abbrev pub IsDistinct : List AuditEvent → Type 0
IsDistinct [] = Unit
IsDistinct (x ∷ xs) = IsFresh x.event_id xs × IsDistinct xs

none_of : (p q : Bool) → (p || q) ≡ false → (p ≡ false) × (q ≡ false)
none_of p q h = ground arith

differs : (a b : String) → (a == b) ≡ false → a ≢ b
differs a b h = ground (arith, string_eq.beq_iff a b)

IsDistinct-append :
    (x : AuditEvent) (events : List AuditEvent)
    → IsFresh x.event_id events
    → IsDistinct events
    → IsDistinct (events ++ (x ∷ []))
IsDistinct-append x [] fresh h = (tt, tt)
IsDistinct-append x (y ∷ ys) fresh h = (
  IsFresh-append y.event_id x ys h.0 (λ same. fresh.0 (sym same)),
  IsDistinct-append x ys fresh.1 h.1,
)
  where
    IsFresh-append :
        (id : String) (z : AuditEvent) (events : List AuditEvent)
        → IsFresh id events
        → z.event_id ≢ id
        → IsFresh id (events ++ (z ∷ []))
    IsFresh-append id z [] g k = (k, tt)
    IsFresh-append id z (w ∷ ws) g k = (g.0, IsFresh-append id z ws g.1 k)

any-IsFresh :
    (id : String) (events : List AuditEvent)
    → any (λ existing. existing.event_id == id) events ≡ false
    → IsFresh id events
any-IsFresh id [] h = tt
any-IsFresh id (x ∷ xs) h =
    let (other, rest) = none_of (x.event_id == id) _ h in
    (differs x.event_id id other, any-IsFresh id xs rest)

record_event_taken :
    (event : AuditEvent) (repo : AuditRepository)
    → any (λ existing. existing.event_id == event.event_id) repo.events ≡ true
    → record_event event repo ≡ err event_exists
unfolding record_event
record_event_taken event repo h = rw (record_event, h) refl

record_event_free :
    (event : AuditEvent) (repo : AuditRepository)
    → any (λ existing. existing.event_id == event.event_id) repo.events ≡ false
    → record_event event repo ≡ ok (record repo { events = repo.events ++ (event ∷ []) })
unfolding record_event
record_event_free event repo h = rw (record_event, h) refl

-- An event is recorded only under an identifier that no event has, and goes to the end.
record_event-eq-ok :
    (event : AuditEvent) (repo after : AuditRepository)
    → record_event event repo ≡ ok after
    → (after.events ≡ repo.events ++ (event ∷ [])) × IsFresh event.event_id repo.events
record_event-eq-ok event repo after h =
    elim (Bool-cases (any (λ existing. existing.event_id == event.event_id) repo.events)) [
      | inl e ↦ absurd (cc (sym (record_event_taken event repo e) ∙ h))
      | inr e ↦
          let same = ok_inj (sym (record_event_free event repo e) ∙ h) in
          (ap (λ d. d.events) (sym same), any-IsFresh event.event_id repo.events e)
    ]
  where
    ok_inj :
        {a b : AuditRepository} → ◌≡◌ {A = Result AuditError AuditRepository} (ok a) (ok b) → a ≡ b
    ok_inj k = cc

-- One call of the repository that changes it.
pub data Step : AuditRepository → AuditRepository → Type 0 where
  recorded : (event : AuditEvent) (d e : AuditRepository) → record_event event d ≡ ok e → Step d e
  state_saved : (s : TransactionState) (d : AuditRepository) → Step d (save_state s d)
  evidence_recorded : (x : LlmEvidence) (d : AuditRepository) → Step d (record_llm_evidence x d)

pub data Runs : AuditRepository → AuditRepository → Type 0 where
  done : (d : AuditRepository) → Runs d d
  then_step : (d e g : AuditRepository) → Runs d e → Step e g → Runs d g

Step-events :
    (d e : AuditRepository)
    → Step d e
    → IsDistinct d.events
    → (more : List AuditEvent) × (e.events ≡ d.events ++ more) × IsDistinct e.events
unfolding save_state record_llm_evidence
Step-events _ _ (recorded event d e answer) h =
    let (same, fresh) = record_event-eq-ok event d e answer in
    (event ∷ [], same, subst IsDistinct (sym same) (IsDistinct-append event d.events fresh h))
Step-events _ _ (state_saved s d) h = ([], sym (append-nil d.events), h)
Step-events _ _ (evidence_recorded x d) h = ([], sym (append-nil d.events), h)

-- Whichever calls are made on a repository whose event identifiers are pairwise different, they stay
-- pairwise different, and the events that were in the log stay in it, in their order, at its front.
pub Runs-events :
    (d e : AuditRepository)
    → Runs d e
    → IsDistinct d.events
    → (more : List AuditEvent) × (e.events ≡ d.events ++ more) × IsDistinct e.events
Runs-events _ _ (done d) h = ([], sym (append-nil d.events), h)
Runs-events _ _ (then_step d e g runs step) h =
    let (first, same, distinct) = Runs-events d e runs h in
    let (rest, more, still) = Step-events e g step distinct in
    (first ++ rest, more ∙ ap (λ l. l ++ rest) same ∙ append_assoc d.events first rest, still)
