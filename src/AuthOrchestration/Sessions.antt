-- ===== src/AuthOrchestration/Sessions.antt =====
-- What holds of every session that the auth orchestration stores, in every state that its calls
-- reach.
use veri_pay.AuthOrchestration.Binding.{complete_session-bound, complete_session-unbound}
use veri_pay.AuthOrchestration.Completion.{
  check_binding, complete_found, complete_session, decide_session, expire_session, settle,
}
use veri_pay.AuthOrchestration.Creation.{create_session, keep_session, prepare_session}
use veri_pay.AuthOrchestration.Requests.{
  VerificationCompletionRequest, VerificationSession, VerificationSessionRequest,
}
use veri_pay.AuthOrchestration.Service.{Draws, Providers, Service, VerificationError, save}
use veri_pay.Common.{
  All, All-insert, All-lookup, Bool-cases, Option, Result, String, Text, [], arith, contains, err,
  inl, inr, lookup, none, not, ok, refl, some, true, ℕ, ◌&&◌, ◌==◌, ◌∷◌, ◌≡◌, ◌≢◌,
}
use veri_pay.Enums.Payment.{VerificationOutcome, verification_outcome_eq}
use veri_pay.Enums.Risk.{RiskTier, risk_tier_eq}

-- A session is locked exactly if its tier is MODERATE and it ended without approval, asks for an
-- analyst exactly if it was escalated, is escalated only in tier HIGH, where it ends in no other
-- refusal, and never takes the outcomes EXPIRED and LOCKED.
pub record IsConsistent (s : VerificationSession) : Type 0 where
  pub locks : s.temporary_lock ≡ (
      s.risk_tier == RiskTier.moderate
      && not (contains s.outcome (VerificationOutcome.pending ∷ VerificationOutcome.approved ∷ [])))
  pub escalates : s.escalation_required ≡ (s.outcome == VerificationOutcome.escalated)
  pub only_high : s.outcome ≡ VerificationOutcome.escalated → s.risk_tier ≡ RiskTier.high
  pub high_ends :
      s.risk_tier ≡ RiskTier.high
      → contains s.outcome (
          VerificationOutcome.pending ∷ VerificationOutcome.approved ∷ VerificationOutcome.escalated
          ∷ [])
        ≡ true
  pub not_expired : s.outcome ≢ VerificationOutcome.expired
  pub not_locked : s.outcome ≢ VerificationOutcome.locked

-- A dictionary entry: the session stands under its own identifier.
abbrev pub IsEntry : String × VerificationSession → Type 0
IsEntry (k, s) = (k ≡ s.session_id) × IsConsistent s

abbrev pub IsValid : Service → Type 0
IsValid svc = All IsEntry svc.sessions

-- Every session that `settle` hands back is consistent, ended, and the same session.
pub settle-IsConsistent :
    (env : Providers) (later : ℕ) (r : VerificationCompletionRequest) (s : VerificationSession)
    → IsConsistent (settle env later r s).0
unfolding settle decide_session
settle-IsConsistent env later r s = ground arith

pub settle-ends :
    (env : Providers) (later : ℕ) (r : VerificationCompletionRequest) (s : VerificationSession)
    → ((settle env later r s).0.outcome ≢ VerificationOutcome.pending)
      × ((settle env later r s).0.session_id ≡ s.session_id)
unfolding settle decide_session
settle-ends env later r s = ground arith

pub prepare_session-IsConsistent :
    (env : Providers) (r : VerificationSessionRequest) (d : Draws) (s : VerificationSession)
    (token : Text)
    → prepare_session env r d ≡ ok (s, token)
    → IsConsistent s
unfolding prepare_session
prepare_session-IsConsistent env r d s token h = ground arith

save-IsValid :
    (s : VerificationSession) (svc : Service) → IsConsistent s → IsValid svc → IsValid (save s svc)
save-IsValid s svc c v = All-insert IsEntry s.session_id s svc.sessions (refl, c) v

pub keep_session-IsValid :
    (s : VerificationSession) (svc : Service)
    → IsConsistent s
    → IsValid svc
    → IsValid (keep_session s svc)
unfolding keep_session
keep_session-IsValid s svc c v = elim (Bool-cases (s.risk_tier == RiskTier.no_risk)) [
  | inl e ↦ rw e (save-IsValid s svc c v)
  | inr e ↦ rw e (save-IsValid s svc c v)
]

pub create_session-IsValid :
    (env : Providers) (r : VerificationSessionRequest) (d : Draws) (svc : Service)
    → IsValid svc
    → IsValid (create_session env r d svc).1
unfolding create_session
create_session-IsValid env r d svc v = go (prepare_session env r d) refl
  where
    go :
        (o : Result VerificationError (VerificationSession × Text))
        → prepare_session env r d ≡ o
        → IsValid (create_session env r d svc).1
    go (err e) h = rw (h, create_session) v
    go (ok (s, token)) h =
        rw (h, create_session)
          (keep_session-IsValid s svc (prepare_session-IsConsistent env r d s token h) v)

pub complete_session-IsValid :
    (env : Providers) (now later : ℕ) (id : String) (r : VerificationCompletionRequest)
    (svc : Service)
    → IsValid svc
    → IsValid (complete_session env now later id r svc).1
unfolding complete_session complete_found
complete_session-IsValid env now later id r svc v = go (lookup id svc.sessions) refl
  where
    bound :
        (s : VerificationSession)
        → lookup id svc.sessions ≡ some s
        → (o : Result VerificationError Unit) → check_binding env now r s ≡ o
        → IsValid (complete_session env now later id r svc).1
    bound s found (err e) h = rw (complete_session-unbound env now later id r svc s found e h) v
    bound s found (ok _) h =
        rw (complete_session-bound env now later id r svc s found h)
          (save-IsValid (settle env later r s).0 svc (settle-IsConsistent env later r s) v)

    go :
        (o : Option VerificationSession)
        → lookup id svc.sessions ≡ o
        → IsValid (complete_session env now later id r svc).1
    go none h = rw (h, complete_session) v
    go (some s) h = bound s h (check_binding env now r s) refl

-- The calls of the service, in any order and with any arguments.
pub data Step (env : Providers) : Service → Service → Type 0 where
  create :
      (r : VerificationSessionRequest) (d : Draws) (svc : Service)
      → Step env svc (create_session env r d svc).1
  complete :
      (now later : ℕ) (id : String) (r : VerificationCompletionRequest) (svc : Service)
      → Step env svc (complete_session env now later id r svc).1
  expire : (id : String) (svc : Service) → Step env svc (expire_session id svc).1

pub data Reaches (env : Providers) : Service → Service → Type 0 where
  here : {svc : Service} → Reaches env svc svc
  next : {a b c : Service} → Reaches env a b → Step env b c → Reaches env a c

expire_session_unchanged : (id : String) (svc : Service) → (expire_session id svc).1 ≡ svc
unfolding expire_session
expire_session_unchanged id svc = ground arith

Step-IsValid : (env : Providers) {a b : Service} → Step env a b → IsValid a → IsValid b
Step-IsValid env (create r d svc) v = create_session-IsValid env r d svc v
Step-IsValid env (complete now later id r svc) v = complete_session-IsValid env now later id r svc v
Step-IsValid env (expire id svc) v = rw (expire_session_unchanged id svc) v

Reaches-IsValid : (env : Providers) {a b : Service} → IsValid a → Reaches env a b → IsValid b
Reaches-IsValid env v here = v
Reaches-IsValid env v (next before step) = Step-IsValid env step (Reaches-IsValid env v before)

abbrev pub empty_service : Service
empty_service = record { sessions = []; dispatched = [] }

-- In every state that the calls reach from the empty service, a session found under an identifier
-- has that identifier and is consistent: locked only in tier MODERATE after a refusal, escalated
-- only in tier HIGH, and never EXPIRED or LOCKED.
pub Reaches-IsConsistent :
    (env : Providers) {svc : Service} (id : String) (s : VerificationSession)
    → Reaches env empty_service svc
    → lookup id svc.sessions ≡ some s
    → (id ≡ s.session_id) × IsConsistent s
Reaches-IsConsistent env {svc} id s reached found =
    All-lookup IsEntry id s svc.sessions (Reaches-IsValid env tt reached) found
