-- ===== src/DeviceIntegrity/Attestation.antt =====
-- What `verify_attestation` accepts, and that it accepts a challenge once.
use veri_pay.Common.{
  Bool, Bool-cases, Option-cases, ap, arith, false, inl, inr, insert, lookup, lookup-insert, none,
  refl, some, string_eq, sym, text_refl, true, ℕ, ◌<◌, ◌∙◌, ◌≡◌,
}
use veri_pay.DeviceIntegrity.{
  AttestationProvider, AttestationRequest, AttestationStatus, ChallengeRecord, Challenges,
  DeviceChallenge, attestation_result, judge, rejection, verify_attestation, verify_found,
}

-- The device answers the open challenge `c` in time.
abbrev pub Answers : AttestationRequest → ℕ → DeviceChallenge → Type 0
Answers r now c =
    (now < c.expires_at)
    × (c.device_id ≡ r.device_id)
    × (c.platform ≡ r.platform)
    × (c.nonce ≡ r.nonce)

judge-Answers :
    (provider : AttestationProvider) (r : AttestationRequest) (now : ℕ) (c : DeviceChallenge)
    → (judge provider r now c).status ≡ AttestationStatus.verified
    → Answers r now c × (judge provider r now c ≡ provider r.platform r.attestation_token)
unfolding judge
judge-Answers provider r now c h =
    ground (arith, string_eq.beq_iff c.device_id r.device_id, string_eq.beq_iff c.nonce r.nonce)

Answers-judge :
    (provider : AttestationProvider) (r : AttestationRequest) (now : ℕ) (c : DeviceChallenge)
    → Answers r now c
    → judge provider r now c ≡ provider r.platform r.attestation_token
unfolding judge
Answers-judge provider r now c (in_time, device, platform, nonce) =
    ground (arith, text_refl r.device_id, text_refl r.nonce)

abbrev pub with_consumed : ChallengeRecord → Bool → ChallengeRecord
with_consumed c b = record c { consumed = b }

verify_attestation_found :
    (provider : AttestationProvider) (r : AttestationRequest) (now : ℕ) (d : Challenges)
    (found : ChallengeRecord)
    → lookup r.challenge_id d ≡ some found
    → verify_attestation provider r now d ≡ (
      attestation_result r (verify_found provider r now found d).0,
      (verify_found provider r now found d).1,
    )
unfolding verify_attestation
verify_attestation_found provider r now d found h = rw (verify_attestation, h) refl

verify_attestation_unknown :
    (provider : AttestationProvider) (r : AttestationRequest) (now : ℕ) (d : Challenges)
    → lookup r.challenge_id d ≡ none
    → verify_attestation provider r now d
      ≡ (attestation_result r (rejection "CHALLENGE_NOT_FOUND"), d)
unfolding verify_attestation
verify_attestation_unknown provider r now d h = rw (verify_attestation, h) refl

verify_found_replayed :
    (provider : AttestationProvider) (r : AttestationRequest) (now : ℕ) (found : ChallengeRecord)
    (d : Challenges)
    → found.consumed ≡ true
    → verify_found provider r now found d ≡ (rejection "CHALLENGE_REPLAYED", d)
unfolding verify_found
verify_found_replayed provider r now found d h = rw (verify_found, h) refl

verify_found_open :
    (provider : AttestationProvider) (r : AttestationRequest) (now : ℕ) (found : ChallengeRecord)
    (d : Challenges)
    → found.consumed ≡ false
    → verify_found provider r now found d
      ≡ (judge provider r now found.challenge, insert r.challenge_id (with_consumed found true) d)
unfolding verify_found
verify_found_open provider r now found d h = rw (verify_found, h) refl

verify_found-verified :
    (provider : AttestationProvider) (r : AttestationRequest) (now : ℕ) (found : ChallengeRecord)
    (d : Challenges)
    → (verify_found provider r now found d).0.status ≡ AttestationStatus.verified
    → (found.consumed ≡ false)
      × Answers r now found.challenge
      × ((verify_found provider r now found d).0 ≡ provider r.platform r.attestation_token)
verify_found-verified provider r now found d h = elim (Bool-cases found.consumed) [
  | inl e ↦
      let clash = ap (λ p. p.0.status) (sym (verify_found_replayed provider r now found d e)) ∙ h in
      absurd (cc clash)
  | inr e ↦
      let same = ap (λ p. p.0) (verify_found_open provider r now found d e) in
      let (answers, verdict) =
        judge-Answers provider r now found.challenge (ap (λ v. v.status) (sym same) ∙ h) in
      (e, answers, same ∙ verdict)
]

-- After an attestation of a known challenge the challenge is there and consumed.
verify_attestation-consumed :
    (provider : AttestationProvider) (r : AttestationRequest) (now : ℕ) (d : Challenges)
    (found : ChallengeRecord)
    → lookup r.challenge_id d ≡ some found
    → (marked : ChallengeRecord) × (lookup r.challenge_id (verify_attestation provider r now d).1
        ≡ some marked)
      × (marked.consumed ≡ true)
verify_attestation-consumed provider r now d found h =
    let step = ap (λ p. p.1) (verify_attestation_found provider r now d found h) in
    elim (Bool-cases found.consumed) [
      | inl e ↦
          let kept = ap (λ p. p.1) (verify_found_replayed provider r now found d e) in
          (found, ap (lookup r.challenge_id) (step ∙ kept) ∙ h, e)
      | inr e ↦
          let put = ap (λ p. p.1) (verify_found_open provider r now found d e) in
          (
            with_consumed found true,
            ap (lookup r.challenge_id) (step ∙ put)
                ∙ lookup-insert r.challenge_id r.challenge_id (with_consumed found true) d
                ∙ rw (text_refl r.challenge_id) refl,
            refl,
          )
    ]

-- A result is VERIFIED only for a known challenge that was not consumed, has not expired, and whose
-- device, platform and nonce are those of the request; the verdict is then the provider's.
pub verify_attestation-verified :
    (provider : AttestationProvider) (r : AttestationRequest) (now : ℕ) (d : Challenges)
    → (verify_attestation provider r now d).0.verdict.status ≡ AttestationStatus.verified
    → (found : ChallengeRecord) × (lookup r.challenge_id d ≡ some found)
      × (found.consumed ≡ false)
      × Answers r now found.challenge
      × ((verify_attestation provider r now d).0.verdict ≡ provider r.platform r.attestation_token)
verify_attestation-verified provider r now d h = elim (Option-cases (lookup r.challenge_id d)) [
  | inl e ↦
      let clash =
        ap (λ p. p.0.verdict.status) (sym (verify_attestation_unknown provider r now d e)) ∙ h in
      absurd (cc clash)
  | inr (found, e) ↦
      let same = ap (λ p. p.0.verdict) (verify_attestation_found provider r now d found e) in
      let (open_yet, answers, verdict) =
        verify_found-verified provider r now found d (ap (λ v. v.status) (sym same) ∙ h) in
      (found, e, open_yet, answers, same ∙ verdict)
]

-- Whatever a first attestation of a known challenge answers, the next one of that challenge, by
-- whichever request and at whichever time, is rejected as replayed and changes nothing.
pub verify_attestation_once :
    (provider : AttestationProvider) (r later : AttestationRequest) (now then_now : ℕ)
    (d : Challenges) (found : ChallengeRecord)
    → lookup r.challenge_id d ≡ some found
    → later.challenge_id ≡ r.challenge_id
    → let e = (verify_attestation provider r now d).1 in
      verify_attestation provider later then_now e
      ≡ (attestation_result later (rejection "CHALLENGE_REPLAYED"), e)
verify_attestation_once provider r later now then_now d found h same =
    let e = (verify_attestation provider r now d).1 in
    let (marked, there, spent) = verify_attestation-consumed provider r now d found h in
    verify_attestation_found provider later then_now e marked (ap (λ k. lookup k e) same ∙ there)
    ∙ ap (λ p. (attestation_result later p.0, p.1))
        (verify_found_replayed provider later then_now marked e spent)
