-- ===== src/Security/Token.antt =====
-- What the verification tokens of security.py guarantee: issue and verify, forgery, expiry.
use veri_pay.Common.{
  >>=-eq-ok, All, IsOk, List, Text, arith, beq_refl, codes, err, false, guard-eq-ok, if◌then◌else◌,
  leb, length, le→leb, list_beq_iff, list_eq, nat_eq, not, ok, option_eq, or_raise-eq-ok,
  or_raise-some, refl, seconds, some, string_eq, true, ℕ, ◌%◌, ◌++◌, ◌+◌, ◌<◌, ◌==◌, ◌↔◌, ◌∙◌, ◌∷◌,
  ◌≡◌, ◌≤◌,
}
use veri_pay.Enums.Dispute.{dispute_reason_eq, dispute_status_eq}
use veri_pay.Enums.Payment.{
  channel_eq, payment_rail_eq, processing_path_eq, verification_outcome_eq,
}
use veri_pay.Enums.Risk.{decision_action_eq, risk_band_eq, risk_tier_eq}
use veri_pay.Enums.Token.{token_status_eq}
use veri_pay.Enums.Trust.{
  device_platform_eq, device_trust_state_eq, gpv_outcome_eq, sca_exemption_eq,
}
use veri_pay.Security.{
  Crypto, VerificationTokenClaims, b64decode, b64encode, expired, issue, max_ttl, min_ttl,
  open_token, pad, sign, verify,
}
use veri_pay.Security.Base64.{ReadsBack, b64decode-b64encode, b64encode-alphabet}
use veri_pay.Security.Split.{NoDot, split_dot, split_dot-append, split_dot-eq-some}

-- What the signer relies on, for the claims that it signs: base64 writes its alphabet, which holds
-- neither a dot nor a padding sign, then at most three padding signs up to a multiple of four, and
-- is undone by decoding; the JSON of the claims reads back as the claims.
pub record RoundTrips (c : Crypto) (x : VerificationTokenClaims) : Type 0 where
  pub alphabet : Text
  pub padding : ℕ
  pub form : c.urlsafe_b64encode (c.dumps x) ≡ alphabet ++ pad padding
  pub no_dot : NoDot alphabet
  pub no_pad : All (λ k. (k == b'=') ≡ false) alphabet
  pub padding_small : padding < 4
  pub blocks : (length alphabet + padding) % 4 ≡ 0
  pub decodes : c.urlsafe_b64decode (alphabet ++ pad padding) ≡ some (c.dumps x)
  pub parses : c.loads (c.dumps x) ≡ some x

-- The encoded claims read back.
abbrev reads_back :
    (c : Crypto) (x : VerificationTokenClaims) → RoundTrips c x → ReadsBack c (c.dumps x)
reads_back c x h = record {
  alphabet = h.alphabet;
  padding = h.padding;
  form = h.form;
  no_pad = h.no_pad;
  padding_small = h.padding_small;
  blocks = h.blocks;
  decodes = h.decodes;
}

-- The claims with the expiry that `issue` computes.
abbrev pub issued : VerificationTokenClaims → ℕ → VerificationTokenClaims
issued x ttl_seconds = record x { expires_at = x.issued_at + seconds ttl_seconds }

vpt1_NoDot : NoDot (codes "vpt1")
vpt1_NoDot = (refl, (refl, (refl, (refl, tt))))

module _ (c : Crypto) (x : VerificationTokenClaims) (h : RoundTrips c x) where
  encoded : b64encode c (c.dumps x) ≡ h.alphabet
  encoded = b64encode-alphabet c (c.dumps x) (reads_back c x h)

  decoded : b64decode c (b64encode c (c.dumps x)) ≡ some (c.dumps x)
  decoded = b64decode-b64encode c (c.dumps x) (reads_back c x h)

  -- The text that `issue` assembles opens to the claims that were signed.
  open_token-text :
      (secret : List ℕ)
      → open_token c secret
          (codes "vpt1" ++ b'.' ∷ (b64encode c (c.dumps x) ++ b'.' ∷ sign c secret (c.dumps x)))
        ≡ ok x
  unfolding open_token
  open_token-text secret =
      let body = c.dumps x in
      let signature = sign c secret body in
      let clean : NoDot (b64encode c body) = rw encoded h.no_dot in
      rw (
        split_dot-append (codes "vpt1") (b64encode c body ++ b'.' ∷ signature) vpt1_NoDot,
        split_dot-append (b64encode c body) signature clean,
        decoded,
        beq_refl signature,
        h.parses,
      )

-- A token that is issued with a time to live of 10 to 30 seconds, for claims whose encodings
-- round-trip, verifies to the signed claims, with the expiry that `issue` put in, until that
-- expiry, and from then on raises that it is expired.
pub verify-issue :
    (c : Crypto) (secret : List ℕ) (x : VerificationTokenClaims) (ttl_seconds now : ℕ)
    → min_ttl ≤ ttl_seconds
    → ttl_seconds ≤ max_ttl
    → RoundTrips c (issued x ttl_seconds)
    → (token : Text) × (issue c secret x ttl_seconds ≡ ok token)
      × (verify c secret token now ≡ (
          if leb (x.issued_at + seconds ttl_seconds) now
          then err expired
          else ok (issued x ttl_seconds)))
unfolding issue verify
verify-issue c secret x ttl_seconds now least most h =
    let body = c.dumps (issued x ttl_seconds) in
    (
      codes "vpt1." ++ (b64encode c body ++ (b'.' ∷ sign c secret body)),
      rw (le→leb _ _ least, le→leb _ _ most),
      rw (open_token-text c (issued x ttl_seconds) h secret) (ground arith),
    )

-- A time to live outside 10 to 30 seconds is refused, and no other is.
pub issue-IsOk :
    (c : Crypto) (secret : List ℕ) (x : VerificationTokenClaims) (ttl_seconds : ℕ)
    → IsOk (issue c secret x ttl_seconds) ↔ ((min_ttl ≤ ttl_seconds) × (ttl_seconds ≤ max_ttl))
unfolding issue
issue-IsOk c secret x ttl_seconds = ground arith

-- The parts of a token that opens, in the order in which `open_token` takes them.
pub record Parts (c : Crypto) (secret : List ℕ) (token : Text) (claims : VerificationTokenClaims)
    : Type 0 where
  pub version : Text
  pub rest : Text
  pub encoded : Text
  pub signature : Text
  pub body : List ℕ
  pub cut : split_dot token ≡ some (version, rest)
  pub cut_rest : split_dot rest ≡ some (encoded, signature)
  pub versioned : (version == codes "vpt1") ≡ true
  pub decoded : b64decode c encoded ≡ some body
  pub signed : (sign c secret body == signature) ≡ true
  pub parsed : c.loads body ≡ some claims

open_token-Parts :
    (c : Crypto) (secret : List ℕ) (token : Text) (claims : VerificationTokenClaims)
    → open_token c secret token ≡ ok claims
    → Parts c secret token claims
unfolding open_token
open_token-Parts c secret token claims h =
    let (p, cut, h₁) = or_raise-eq-ok (split_dot token) _ _ h in
    let (q, cut_rest, h₂) = or_raise-eq-ok (split_dot p.1) _ _ h₁ in
    let (versioned, h₃) = guard-eq-ok _ _ _ h₂ in
    let (body, decoded, h₄) = or_raise-eq-ok (b64decode c q.0) _ _ h₃ in
    let (signed, h₅) = guard-eq-ok _ _ _ h₄ in
    record {
      version = p.0;
      rest = p.1;
      encoded = q.0;
      signature = q.1;
      body = body;
      cut = cut;
      cut_rest = cut_rest;
      versioned = versioned;
      decoded = decoded;
      signed = signed;
      parsed = or_raise-some (c.loads body) _ h₅;
    }

-- The parts joined again are the token.
Parts-eq :
    (c : Crypto) (secret : List ℕ) (token : Text) (claims : VerificationTokenClaims)
    → (p : Parts c secret token claims)
    → token ≡ codes "vpt1" ++ b'.' ∷ (p.encoded ++ b'.' ∷ sign c secret p.body)
Parts-eq c secret token claims p = rw (
  (split_dot-eq-some token p.version p.rest p.cut).0,
  (split_dot-eq-some p.rest p.encoded p.signature p.cut_rest).0,
  (list_beq_iff p.version (codes "vpt1")).0 p.versioned,
  (list_beq_iff (sign c secret p.body) p.signature).0 p.signed,
)

-- What a token that verifies must be: `vpt1`, a body and the body's own signature, joined by dots,
-- where the body reads as the claims; and the claims have not expired.
pub verify-eq-ok :
    (c : Crypto) (secret : List ℕ) (token : Text) (now : ℕ) (claims : VerificationTokenClaims)
    → verify c secret token now ≡ ok claims
    → (encoded : Text) × (body : List ℕ) × (token
        ≡ codes "vpt1" ++ b'.' ∷ (encoded ++ b'.' ∷ sign c secret body))
      × (b64decode c encoded ≡ some body)
      × (c.loads body ≡ some claims)
      × (now < claims.expires_at)
unfolding verify
verify-eq-ok c secret token now claims h =
    let (opened_claims, opened, h₁) = >>=-eq-ok (open_token c secret token) _ h in
    let (unexpired, same) = guard-eq-ok (not (leb opened_claims.expires_at now)) _ _ h₁ in
    let e : opened_claims ≡ claims = cc same in
    let parts : Parts c secret token claims =
      open_token-Parts c secret token claims (opened ∙ same) in
    (
      parts.encoded,
      parts.body,
      Parts-eq c secret token claims parts,
      parts.decoded,
      parts.parsed,
      rw (← e) (ground arith),
    )

-- Of a token that verified once, the clock alone decides: it verifies to the same claims until they
-- expire, and raises that it is expired from then on.
pub verify_again :
    (c : Crypto) (secret : List ℕ) (token : Text) (now later : ℕ) (claims : VerificationTokenClaims)
    → verify c secret token now ≡ ok claims
    → verify c secret token later ≡ (if leb claims.expires_at later then err expired else ok claims)
unfolding verify
verify_again c secret token now later claims h = ground arith
