-- ===== src/AuthOrchestration/Binding.antt =====
-- The binding of a session of the auth orchestration to the token of a request, and the shape of
-- the answers of `complete_session`.
use veri_pay.AuthOrchestration.Completion.{
  check_binding, claims_match, complete_found, complete_session, result_of, settle,
}
use veri_pay.AuthOrchestration.Requests.{
  VerificationCompletionRequest, VerificationResult, VerificationSession,
}
use veri_pay.AuthOrchestration.Service.{
  Providers, Service, VerificationError, claims_mismatch, save, token_failed,
}
use veri_pay.Common.{
  String, arith, err, guard-eq-ok, guard-ok, lookup, ok, raise_as-eq-ok, some, string_eq, text_refl,
  true, ℕ, ◌↔◌, ◌≡◌,
}
use veri_pay.Enums.Payment.{VerificationOutcome, verification_outcome_beq_iff}
use veri_pay.Security.{VerificationTokenClaims, verify}

-- The session waits, and the token of the request is the session's: it has its digest, verifies at
-- the given time, and names the session, its transaction, its device and its token.
pub record IsBound (env : Providers) (now : ℕ) (r : VerificationCompletionRequest)
    (s : VerificationSession) : Type 0 where
  pub waiting : s.outcome ≡ VerificationOutcome.pending
  pub same_digest : env.digest r.token ≡ s.token_digest
  pub claims : VerificationTokenClaims
  pub verified : verify env.crypto env.secret r.token now ≡ ok claims
  pub same_session : claims.session_id ≡ s.session_id
  pub same_transaction : claims.transaction_id ≡ s.transaction_id
  pub same_device : claims.device_id ≡ s.device_id
  pub same_token : claims.token_id ≡ s.token_id

claims_match-eq :
    (claims : VerificationTokenClaims) (s : VerificationSession)
    → (claims_match claims s ≡ true) ↔ (
        (claims.session_id ≡ s.session_id)
        × (claims.transaction_id ≡ s.transaction_id)
        × (claims.device_id ≡ s.device_id)
        × (claims.token_id ≡ s.token_id))
claims_match-eq claims s = ground (
  arith,
  string_eq.beq_iff claims.session_id s.session_id,
  string_eq.beq_iff claims.transaction_id s.transaction_id,
  string_eq.beq_iff claims.device_id s.device_id,
  string_eq.beq_iff claims.token_id s.token_id,
)

module _ (env : Providers) (now : ℕ) (r : VerificationCompletionRequest)
    (s : VerificationSession) where
  pub check_binding-IsBound : check_binding env now r s ≡ ok tt → IsBound env now r s
  unfolding check_binding
  check_binding-IsBound h =
      let (waiting, h₁) = guard-eq-ok _ _ _ h in
      let (bound, h₂) = guard-eq-ok _ _ _ h₁ in
      let (claims, verified, h₃) =
        raise_as-eq-ok token_failed (verify env.crypto env.secret r.token now) _ h₂ in
      let same =
        (claims_match-eq claims s).0 (guard-ok (claims_match claims s) claims_mismatch h₃) in
      record {
        waiting = (verification_outcome_beq_iff s.outcome VerificationOutcome.pending).0 waiting;
        same_digest = (string_eq.beq_iff (env.digest r.token) s.token_digest).0 bound;
        claims = claims;
        verified = verified;
        same_session = same.0;
        same_transaction = same.1;
        same_device = same.2;
        same_token = same.3;
      }

  pub IsBound-check_binding : IsBound env now r s → check_binding env now r s ≡ ok tt
  unfolding check_binding
  IsBound-check_binding b =
      let same =
        (claims_match-eq b.claims s).1
          (b.same_session, b.same_transaction, b.same_device, b.same_token) in
      simp (b.waiting, b.same_digest, text_refl, b.verified, same)

pub complete_session-found :
    (env : Providers) (now later : ℕ) (id : String) (r : VerificationCompletionRequest)
    (svc : Service) (res : VerificationResult)
    → (complete_session env now later id r svc).0 ≡ ok res
    → (s : VerificationSession) × (lookup id svc.sessions ≡ some s)
      × ((complete_found env now later r s svc).0 ≡ ok res)
unfolding complete_session
complete_session-found env now later id r svc res h = ground arith

pub complete_found-eq-ok :
    (env : Providers) (now later : ℕ) (r : VerificationCompletionRequest) (s : VerificationSession)
    (svc : Service) (res : VerificationResult)
    → (complete_found env now later r s svc).0 ≡ ok res
    → (check_binding env now r s ≡ ok tt)
      × (res ≡ result_of (settle env later r s).0 (settle env later r s).1 now)
unfolding complete_found
complete_found-eq-ok env now later r s svc res h = ground arith

-- The session of an answer was found under its identifier and was bound.
pub complete_session-eq-ok :
    (env : Providers) (now later : ℕ) (id : String) (r : VerificationCompletionRequest)
    (svc : Service) (res : VerificationResult)
    → (complete_session env now later id r svc).0 ≡ ok res
    → (s : VerificationSession) × (lookup id svc.sessions ≡ some s)
      × (check_binding env now r s ≡ ok tt)
      × (res ≡ result_of (settle env later r s).0 (settle env later r s).1 now)
complete_session-eq-ok env now later id r svc res h =
    let (s, found, h₁) = complete_session-found env now later id r svc res h in
    let (bound, same) = complete_found-eq-ok env now later r s svc res h₁ in (s, found, bound, same)

-- The answer and the next state for a stored session, whether it is bound or not.
module _ (env : Providers) (now later : ℕ) (id : String) (r : VerificationCompletionRequest)
    (svc : Service) (s : VerificationSession) (found : lookup id svc.sessions ≡ some s) where
  pub complete_session-bound :
      check_binding env now r s ≡ ok tt
      → complete_session env now later id r svc ≡ (
        ok (result_of (settle env later r s).0 (settle env later r s).1 now),
        save (settle env later r s).0 svc,
      )
  unfolding complete_session complete_found
  complete_session-bound bound = rw (found, complete_session) (rw (bound, complete_found))

  pub complete_session-unbound :
      (e : VerificationError)
      → check_binding env now r s ≡ err e
      → complete_session env now later id r svc ≡ (err e, svc)
  unfolding complete_session complete_found
  complete_session-unbound e unbound = rw (found, complete_session) (rw (unbound, complete_found))
