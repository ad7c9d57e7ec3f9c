-- ===== src/AuthOrchestration/Expiry.antt =====
-- What becomes of a session of the auth orchestration that is not completed in time.
use veri_pay.AuthOrchestration.Binding.{complete_session-unbound}
use veri_pay.AuthOrchestration.Completion.{check_binding, complete_session, expire_session}
use veri_pay.AuthOrchestration.Opened.{Opened}
use veri_pay.AuthOrchestration.Requests.{
  VerificationCompletionRequest, VerificationSession, VerificationSessionRequest,
}
use veri_pay.AuthOrchestration.Service.{
  Draws, Providers, Service, session_not_found, token_failed, token_unrecoverable,
}
use veri_pay.Common.{
  String, Text, ap, arith, err, if◌then◌else◌, is_some, le→leb, lookup, ok, some, text_refl, ℕ, ◌∙◌,
  ◌≡◌, ◌≤◌,
}
use veri_pay.Enums.Payment.{VerificationOutcome}
use veri_pay.Security.{TokenError, VerificationTokenClaims, verify}
use veri_pay.Security.Token.{verify_again}

expired_binding :
    (env : Providers) (now later : ℕ) (r : VerificationCompletionRequest) (s : VerificationSession)
    (claims : VerificationTokenClaims)
    → s.outcome ≡ VerificationOutcome.pending
    → env.digest r.token ≡ s.token_digest
    → verify env.crypto env.secret r.token now ≡ ok claims
    → claims.expires_at ≤ later
    → check_binding env later r s ≡ err (token_failed TokenError.expired)
unfolding check_binding
expired_binding env now later r s claims waiting same verified late =
    let raised : verify env.crypto env.secret r.token later ≡ err TokenError.expired =
      rw (le→leb _ _ late) at
        (verify_again env.crypto env.secret r.token now later claims verified) in
    simp (waiting, same, text_refl, raised)

-- For a session and a token that are `Opened`, while the session is stored as it was created: from
-- its expiry on, a completion with that token raises that the token is expired, and changes
-- nothing.
pub complete_session_expired :
    (env : Providers) (request : VerificationSessionRequest) (d : Draws) (svc after : Service)
    (s : VerificationSession) (token : Text)
    → Opened env request d svc after s token
    → (now later : ℕ) (r : VerificationCompletionRequest) (current : Service)
    → lookup s.session_id current.sessions ≡ some s
    → r.token ≡ token
    → s.expires_at ≤ now
    → complete_session env now later s.session_id r current
      ≡ (err (token_failed TokenError.expired), current)
complete_session_expired env request d svc after s token o now later r current found e late =
    complete_session-unbound env now later s.session_id r current s found
      (token_failed TokenError.expired)
      (expired_binding env d.now now r s o.claims o.waiting (ap env.digest e ∙ o.bound)
        (ap (λ t. verify env.crypto env.secret t d.now) e ∙ o.verified)
        (omega (arith, o.claims_expire)))

-- `expire_session` raises for every identifier, and changes nothing.
pub expire_session_raises :
    (id : String) (svc : Service)
    → expire_session id svc ≡ (
      err (if is_some (lookup id svc.sessions) then token_unrecoverable else session_not_found),
      svc,
    )
unfolding expire_session
expire_session_raises id svc = ground arith
