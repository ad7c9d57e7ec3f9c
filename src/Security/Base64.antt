-- ===== src/Security/Base64.antt =====
-- The base64 helpers of libs/veripay_common/veripay_common/security.py, `_b64encode` and
-- `_b64decode`: the padding that one strips the other puts back.
use veri_pay.Common.{
  All, List, Text, [], arith, false, length, list_eq, nat_eq, option_eq, refl, some, string_eq, suc,
  zero, ℕ, ◌%◌, ◌++◌, ◌+◌, ◌-◌, ◌<◌, ◌==◌, ◌∷◌, ◌≡◌,
}
use veri_pay.Enums.Dispute.{dispute_reason_eq, dispute_status_eq}
use veri_pay.Enums.Payment.{
  channel_eq, payment_rail_eq, processing_path_eq, verification_outcome_eq,
}
use veri_pay.Enums.Risk.{decision_action_eq, risk_band_eq, risk_tier_eq}
use veri_pay.Enums.Token.{token_status_eq}
use veri_pay.Enums.Trust.{
  device_platform_eq, device_trust_state_eq, gpv_outcome_eq, sca_exemption_eq,
}
use veri_pay.Security.{Crypto, b64decode, b64encode, pad, rstrip_pad}

-- Documented of the standard library's base64, for one value: it writes symbols of its alphabet, none
-- a padding sign, then at most three padding signs up to a multiple of four, and decoding undoes it.
pub record ReadsBack (c : Crypto) (value : List ℕ) : Type 0 where
  pub alphabet : Text
  pub padding : ℕ
  pub form : c.urlsafe_b64encode value ≡ alphabet ++ pad padding
  pub no_pad : All (λ k. (k == b'=') ≡ false) alphabet
  pub padding_small : padding < 4
  pub blocks : (length alphabet + padding) % 4 ≡ 0
  pub decodes : c.urlsafe_b64decode (alphabet ++ pad padding) ≡ some value

rstrip_pad-pad : (n : ℕ) → rstrip_pad (pad n) ≡ []
unfolding rstrip_pad pad
rstrip_pad-pad zero = refl
rstrip_pad-pad (suc n) = rw (rstrip_pad-pad n)

rstrip_pad-append-pad :
    (t : Text) (n : ℕ) → All (λ k. (k == b'=') ≡ false) t → rstrip_pad (t ++ pad n) ≡ t
unfolding rstrip_pad
rstrip_pad-append-pad [] n h = rstrip_pad-pad n
rstrip_pad-append-pad (k ∷ t) n h = rw (rstrip_pad-append-pad t n h.1, h.0)

module _ (c : Crypto) (value : List ℕ) (h : ReadsBack c value) where
  pub b64encode-alphabet : b64encode c value ≡ h.alphabet
  unfolding b64encode
  b64encode-alphabet = rw h.form (rstrip_pad-append-pad h.alphabet h.padding h.no_pad)

  -- The padding that decoding puts back is the padding that encoding took off.
  pub b64decode-b64encode : b64decode c (b64encode c value) ≡ some value
  unfolding b64decode
  b64decode-b64encode =
      let same : (4 - length h.alphabet % 4) % 4 ≡ h.padding =
        omega (arith, h.padding_small, h.blocks) in
      rw (b64encode-alphabet, b64decode, same) h.decodes
