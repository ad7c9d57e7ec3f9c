-- ===== src/Security/Sealing.antt =====
-- The envelopes of libs/veripay_common/veripay_common/security.py from end to end: what `decrypt`
-- makes of an envelope that `encrypt` made, and what it accepts.
use veri_pay.Common.{
  >>=-eq-ok, All, List, ap, arith, beq_refl, chars, guard-eq-ok, length, list_beq_iff, list_eq, ltb,
  lt→ltb, nat_eq, ok, option_eq, or_raise-eq-ok, refl, some, string_eq, sym, true, ℕ, ◌++◌, ◌<◌,
  ◌==◌, ◌∙◌, ◌≡◌, ◌≤◌,
}
use veri_pay.Common.Bits.{IsByte}
use veri_pay.Enums.Dispute.{dispute_reason_eq, dispute_status_eq}
use veri_pay.Enums.Payment.{
  channel_eq, payment_rail_eq, processing_path_eq, verification_outcome_eq,
}
use veri_pay.Enums.Risk.{decision_action_eq, risk_band_eq, risk_tier_eq}
use veri_pay.Enums.Token.{token_status_eq}
use veri_pay.Enums.Trust.{
  device_platform_eq, device_trust_state_eq, gpv_outcome_eq, sca_exemption_eq,
}
use veri_pay.Security.{Crypto, b64decode, b64encode}
use veri_pay.Security.Base64.{ReadsBack, b64decode-b64encode, b64encode-alphabet}
use veri_pay.Security.Encryption.{
  IsSha256, encrypt_lem, sealed, stream-ok, xor_bytes-length, xor_bytes_twice,
}
use veri_pay.Security.Envelope.{
  EncryptedEnvelope, Encryptor, bad_base64, decrypt, encrypt, stream, unauthenticated, unknown_key,
  valid_envelope, xor_bytes,
}

-- Documented of the standard library's base64 and of byte strings: each reads back, and one that is
-- not empty has symbols.
pub record Base64Laws (c : Crypto) : Type 0 where
  pub reads : (value : List ℕ) → All IsByte value → ReadsBack c value
  pub symbols :
      (value : List ℕ) (bytes : All IsByte value)
      → 0 < length value
      → 0 < length (reads value bytes).alphabet

module _ (c : Crypto) (sha : IsSha256 c) (base64 : Base64Laws c) where
  b64decode-bytes :
      (value : List ℕ) → All IsByte value → b64decode c (b64encode c value) ≡ some value
  b64decode-bytes value bytes = b64decode-b64encode c value (base64.reads value bytes)

  b64encode-nonempty :
      (value : List ℕ)
      → All IsByte value
      → 0 < length value
      → ltb 0 (length (b64encode c value)) ≡ true
  b64encode-nonempty value bytes h =
      let long = base64.symbols value bytes h in
      lt→ltb 0 (length (b64encode c value))
        (rw (b64encode-alphabet c value (base64.reads value bytes)) long)

  -- An encryptor decrypts what it has encrypted: for a payload of 1 to 2 ^ 37 bytes, a nonce that is
  -- not empty and a key identifier that is not empty, `encrypt` returns an envelope, and `decrypt`
  -- of the same encryptor returns the payload.
  pub decrypt-encrypt :
      (e : Encryptor) (nonce payload : List ℕ)
      → All IsByte nonce
      → All IsByte payload
      → 0 < chars e.key_id
      → 0 < length nonce
      → 0 < length payload
      → length payload ≤ 137438953472
      → (envelope : EncryptedEnvelope) × (encrypt c e nonce payload ≡ ok envelope)
        × (decrypt c e envelope ≡ ok payload)
  unfolding decrypt valid_envelope
  decrypt-encrypt e nonce payload bn bp hk hn hp fits =
      let (keys, streamed, long, bk) = stream-ok c sha e nonce (length payload) fits in
      let (ciphertext, made, same, bc, back) = xor_bytes_twice payload keys (sym long) bp bk in
      let tag = c.hmac_sha256 e.secret (nonce ++ ciphertext) in
      let bt = sha.digest_bytes e.secret (nonce ++ ciphertext) in
      let valid : valid_envelope (sealed c sha e nonce ciphertext) ≡ true =
        rw
          (
            lt→ltb 0 (chars e.key_id) hk,
            b64encode-nonempty nonce bn hn,
            b64encode-nonempty ciphertext bc (omega (arith, same, hp)),
            b64encode-nonempty tag bt
                (omega (arith, sha.digest_length e.secret (nonce ++ ciphertext))),
          )
          refl in
      let again : stream c e nonce (length ciphertext) ≡ ok keys = rw same streamed in
      (
        sealed c sha e nonce ciphertext,
        encrypt_lem c sha e nonce payload keys ciphertext streamed made ∙ rw valid refl,
        rw
            (
              beq_refl e.key_id,
              b64decode-bytes nonce bn,
              b64decode-bytes ciphertext bc,
              b64decode-bytes tag bt,
              beq_refl tag,
              again,
            )
            back,
      )

module _ (c : Crypto) (e : Encryptor) where
  -- What decrypts is authentic: the envelope names the encryptor's key, its parts decode, the decoded
  -- tag is the HMAC under the encryptor's secret of the decoded nonce and ciphertext, and the payload
  -- is the exclusive or of the ciphertext with the stream of that nonce, as long as the ciphertext.
  pub decrypt-eq-ok :
      (envelope : EncryptedEnvelope) (payload : List ℕ)
      → decrypt c e envelope ≡ ok payload
      → (nonce : List ℕ) × (ciphertext : List ℕ) × (keys : List ℕ) × (envelope.key_id ≡ e.key_id)
        × (b64decode c envelope.nonce ≡ some nonce)
        × (b64decode c envelope.ciphertext ≡ some ciphertext)
        × (b64decode c envelope.authentication_tag
            ≡ some (c.hmac_sha256 e.secret (nonce ++ ciphertext)))
        × (stream c e nonce (length ciphertext) ≡ ok keys)
        × (xor_bytes ciphertext keys ≡ ok payload)
        × (length payload ≡ length ciphertext)
  unfolding decrypt
  decrypt-eq-ok envelope payload h =
      let (known, h₁) = guard-eq-ok (envelope.key_id == e.key_id) unknown_key _ h in
      let (nonce, d₁, h₂) = or_raise-eq-ok (b64decode c envelope.nonce) bad_base64 _ h₁ in
      let (ciphertext, d₂, h₃) = or_raise-eq-ok (b64decode c envelope.ciphertext) bad_base64 _ h₂ in
      let (tag, d₃, h₄) =
        or_raise-eq-ok (b64decode c envelope.authentication_tag) bad_base64 _ h₃ in
      let expected_tag = c.hmac_sha256 e.secret (nonce ++ ciphertext) in
      let (authentic, h₅) = guard-eq-ok (expected_tag == tag) unauthenticated _ h₄ in
      let (keys, streamed, xored) = >>=-eq-ok (stream c e nonce (length ciphertext)) _ h₅ in
      let same : expected_tag ≡ tag = (list_beq_iff expected_tag tag).0 authentic in
      (
        nonce,
        ciphertext,
        keys,
        (string_eq.beq_iff envelope.key_id e.key_id).0 known,
        d₁,
        d₂,
        d₃ ∙ ap some (sym same),
        streamed,
        xored,
        xor_bytes-length ciphertext keys payload xored,
      )
