-- ===== src/AuthOrchestration/Opened.antt =====
-- What `create_session` of the auth orchestration stores, dispatches and returns.
use veri_pay.AuthOrchestration.Creation.{
  claims_of, create_session, keep_session, prepare_session, session_of,
}
use veri_pay.AuthOrchestration.Requests.{VerificationSession, VerificationSessionRequest}
use veri_pay.AuthOrchestration.Service.{Draws, Providers, Service}
use veri_pay.Common.{
  Text, [], ap, arith, beq_refl, false, if◌then◌else◌, leb, lookup, lookup-insert, ok, refl,
  seconds, some, string_eq, true, ℕ, ◌++◌, ◌+◌, ◌==◌, ◌∷◌, ◌≡◌, ◌≤◌,
}
use veri_pay.Enums.Payment.{ProcessingPath, VerificationOutcome}
use veri_pay.Enums.Risk.{RiskTier, risk_tier_eq}
use veri_pay.RiskPolicy.{TierPolicy, policy_for_tier}
use veri_pay.RiskPolicy.Score.{policy_for_tier-total}
use veri_pay.Security.{VerificationTokenClaims, issue, max_ttl, min_ttl, valid_claims, verify}
use veri_pay.Security.Token.{RoundTrips, issued, verify-issue}

-- A request with the fields that its validator has derived, and claims that meet the constraints of
-- their model.
pub record IsReady (env : Providers) (r : VerificationSessionRequest) (d : Draws) : Type 0 where
  pub tier : RiskTier
  pub path : ProcessingPath
  pub has_tier : r.risk_tier ≡ some tier
  pub has_path : r.processing_path ≡ some path
  pub claims_valid : valid_claims (claims_of env r tier d) ≡ true
  pub ttl_least : min_ttl ≤ r.ttl_seconds
  pub ttl_most : r.ttl_seconds ≤ max_ttl
  pub round_trips : RoundTrips env.crypto (issued (claims_of env r tier d) r.ttl_seconds)

-- What the caller may rely on: the session is stored under its identifier and waits, its token
-- verifies to claims that name it, it expires when the token does, and a push went out unless the
-- tier is NO_RISK. It is of the request's transaction, device and currency.
pub record Opened (env : Providers) (r : VerificationSessionRequest) (d : Draws)
    (svc after : Service) (s : VerificationSession) (token : Text) : Type 0 where
  pub stored : lookup s.session_id after.sessions ≡ some s
  pub waiting : s.outcome ≡ VerificationOutcome.pending
  pub lifetime : s.expires_at ≡ d.now + seconds r.ttl_seconds
  pub bound : env.digest token ≡ s.token_digest
  pub claims : VerificationTokenClaims
  pub verified : verify env.crypto env.secret token d.now ≡ ok claims
  pub claims_expire : claims.expires_at ≡ s.expires_at
  pub claims_session : claims.session_id ≡ s.session_id
  pub claims_transaction : claims.transaction_id ≡ s.transaction_id
  pub claims_device : claims.device_id ≡ s.device_id
  pub claims_token : claims.token_id ≡ s.token_id
  pub same_transaction : s.transaction_id ≡ r.transaction_id
  pub same_device : s.device_id ≡ r.device_id
  pub same_currency : s.currency ≡ env.upper r.currency
  pub pushed : after.dispatched ≡ (
      if s.risk_tier == RiskTier.no_risk
      then svc.dispatched
      else svc.dispatched ++ s.session_id ∷ [])

lifetime_pos : (a t : ℕ) → min_ttl ≤ t → leb (a + seconds t) a ≡ false
lifetime_pos a t h = ground arith

module _ (env : Providers) (r : VerificationSessionRequest) (d : Draws) (tier : RiskTier)
    (path : ProcessingPath) (policy : TierPolicy) (token : Text)
    (parsed : VerificationTokenClaims) where
  -- The steps of `prepare_session` one after the other.
  prepare_session-eq-ok :
      r.risk_tier ≡ some tier
      → r.processing_path ≡ some path
      → policy_for_tier tier ≡ ok policy
      → valid_claims (claims_of env r tier d) ≡ true
      → issue env.crypto env.secret (claims_of env r tier d) r.ttl_seconds ≡ ok token
      → verify env.crypto env.secret token d.now ≡ ok parsed
      → prepare_session env r d
        ≡ ok (session_of env r tier path policy d parsed.expires_at token, token)
  unfolding prepare_session
  prepare_session-eq-ok ht hp hl hc hi hv = simp (ht, hp, hl, hc, hi, hv)

  -- A prepared session is stored, and pushed if its tier asks for it.
  create_session-eq-ok :
      (svc : Service) (s : VerificationSession)
      → prepare_session env r d ≡ ok (s, token)
      → create_session env r d svc ≡ (ok (s, token), keep_session s svc)
  unfolding create_session
  create_session-eq-ok svc s h = rw (h, create_session)

keep_session-stored :
    (s : VerificationSession) (svc : Service)
    → lookup s.session_id (keep_session s svc).sessions ≡ some s
unfolding keep_session
keep_session-stored s svc =
    ground (arith, lookup-insert s.session_id s.session_id s svc.sessions, beq_refl s.session_id)

keep_session-dispatched :
    (s : VerificationSession) (svc : Service)
    → (keep_session s svc).dispatched ≡ (
        if s.risk_tier == RiskTier.no_risk
        then svc.dispatched
        else svc.dispatched ++ s.session_id ∷ [])
unfolding keep_session
keep_session-dispatched s svc = ground arith

-- A request that is ready (its fields are derived, its claims valid, its time to live from 10 to
-- 30 seconds and its encodings round-trip) is answered with a session and a token that are
-- `Opened`: the session is stored and waits, is of the request's transaction, device and currency
-- (upper-cased), the token verifies to claims that name it and expire with it, and a push went out
-- unless its tier is NO_RISK.
pub create_session-Opened :
    (env : Providers) (r : VerificationSessionRequest) (d : Draws) (svc : Service)
    → IsReady env r d
    → (s : VerificationSession) × (token : Text) × ((create_session env r d svc).0 ≡ ok (s, token))
      × Opened env r d svc (create_session env r d svc).1 s token
create_session-Opened env r d svc h =
    let claims = claims_of env r h.tier d in
    let parsed = issued claims r.ttl_seconds in
    let (policy, has_policy, _) = policy_for_tier-total h.tier in
    let (token, has_token, verified) =
      verify-issue env.crypto env.secret claims r.ttl_seconds d.now h.ttl_least h.ttl_most
        h.round_trips in
    let verified_now : verify env.crypto env.secret token d.now ≡ ok parsed =
      rw (lifetime_pos d.now r.ttl_seconds h.ttl_least) at verified in
    let s = session_of env r h.tier h.path policy d parsed.expires_at token in
    let answer : create_session env r d svc ≡ (ok (s, token), keep_session s svc) =
      create_session-eq-ok env r d h.tier h.path policy token parsed svc s (
        prepare_session-eq-ok env r d h.tier h.path policy token parsed h.has_tier h.has_path
          has_policy h.claims_valid has_token verified_now) in
    (
      s,
      token,
      ap (λ a. a.0) answer,
      rw answer (record {
        stored = keep_session-stored s svc;
        waiting = refl;
        lifetime = refl;
        bound = refl;
        claims = parsed;
        verified = verified_now;
        claims_expire = refl;
        claims_session = refl;
        claims_transaction = refl;
        claims_device = refl;
        claims_token = refl;
        same_transaction = refl;
        same_device = refl;
        same_currency = refl;
        pushed = keep_session-dispatched s svc;
      }),
    )
