-- ===== src/AuditStore.antt =====
-- services/audit_store/veripay_audit_store/service.py: the audit events, the states of the
-- transactions and the evidence of the language model. The default identifier and clock reading of
-- an event are drawn before the call.
pub mod Events
use veri_pay.Common.{
  Bool, Dict, List, Option, Result, String, [], any, err, filter, if◌then◌else◌, insert, lookup, ok,
  string_eq, ℕ, ◌++◌, ◌==◌, ◌∷◌,
}

pub record TransactionState : Type 0 where
  pub transaction_id : String
  pub state : String
  pub updated_at : ℕ
  pub metadata : Dict String

pub record LlmEvidence : Type 0 where
  pub transaction_id : String
  pub model_name : String
  pub prompt_version : String
  pub prompt_digest : String
  pub completion_digest : String
  pub regulatory_reason_codes : List String
  pub generated_at : ℕ

pub record AuditEvent : Type 0 where
  pub event_id : String
  pub transaction_id : String
  pub event_type : String
  pub actor : String
  pub occurred_at : ℕ
  pub payload : Dict String
  pub retention_until : Option ℕ
  pub immutable : Bool

-- `InMemoryAuditRepository`
pub record AuditRepository : Type 0 where
  pub events : List AuditEvent
  pub states : Dict TransactionState
  pub llm_evidence : List LlmEvidence

pub data AuditError : Type 0 where
  event_exists : AuditError

abbrev pub empty_audit : AuditRepository
empty_audit = record { events = []; states = []; llm_evidence = [] }

unfoldable pub record_event : AuditEvent → AuditRepository → Result AuditError AuditRepository
record_event event repo =
    if any (λ existing. existing.event_id == event.event_id) repo.events
    then err event_exists
    else ok (record repo { events = repo.events ++ (event ∷ []) })

unfoldable pub events_for : String → AuditRepository → List AuditEvent
events_for id repo = filter (λ event. event.transaction_id == id) repo.events

unfoldable pub save_state : TransactionState → AuditRepository → AuditRepository
save_state s repo = record repo { states = insert s.transaction_id s repo.states }

unfoldable pub get_state : String → AuditRepository → Option TransactionState
get_state id repo = lookup id repo.states

unfoldable pub record_llm_evidence : LlmEvidence → AuditRepository → AuditRepository
record_llm_evidence x repo = record repo { llm_evidence = repo.llm_evidence ++ (x ∷ []) }

unfoldable pub evidence_for : String → AuditRepository → List LlmEvidence
evidence_for id repo = filter (λ x. x.transaction_id == id) repo.llm_evidence
