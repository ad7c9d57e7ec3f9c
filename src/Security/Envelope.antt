-- ===== src/Security/Envelope.antt =====
-- libs/veripay_common/veripay_common/security.py: `HmacEnvelopeEncryptor`, which encrypts bytes with
-- an HMAC-derived stream. The HMAC and base64 are those of the signer's model; the nonce that
-- `encrypt` draws is an argument.
use Prim.Native.Nat.{bit_xor}
use veri_pay.Common.{
  Bool, List, Result, String, Text, [], chars, err, guard, if◌then◌else◌, length, list_eq, ltb,
  nat_eq, ok, option_eq, or_raise, string_eq, suc, zero, ℕ, ◌%◌, ◌&&◌, ◌++◌, ◌+◌, ◌/◌, ◌==◌, ◌>>=◌,
  ◌>>◌, ◌∷◌,
}
use veri_pay.Enums.Dispute.{dispute_reason_eq, dispute_status_eq}
use veri_pay.Enums.Payment.{
  channel_eq, payment_rail_eq, processing_path_eq, verification_outcome_eq,
}
use veri_pay.Enums.Risk.{decision_action_eq, risk_band_eq, risk_tier_eq}
use veri_pay.Enums.Token.{token_status_eq}
use veri_pay.Enums.Trust.{
  device_platform_eq, device_trust_state_eq, gpv_outcome_eq, sca_exemption_eq,
}
use veri_pay.Security.{Crypto, b64decode, b64encode}

pub data EnvelopeError : Type 0 where
  short_secret empty_field unknown_key bad_base64 unauthenticated : EnvelopeError
  -- `int.to_bytes(4, "big")` of a number that four bytes do not hold, and `zip(..., strict=True)` of
  -- sequences of two lengths
  counter_overflow length_mismatch : EnvelopeError
  -- only of the model: the fuel of `stream_loop` is used up
  out_of_fuel : EnvelopeError

-- `EncryptedEnvelope`
pub record EncryptedEnvelope : Type 0 where
  pub key_id : String
  pub nonce : Text
  pub ciphertext : Text
  pub authentication_tag : Text

-- The fields' constraint, `min_length=1`.
unfoldable pub valid_envelope : EncryptedEnvelope → Bool
valid_envelope e =
    ltb 0 (chars e.key_id)
    && ltb 0 (length e.nonce)
    && ltb 0 (length e.ciphertext)
    && ltb 0 (length e.authentication_tag)

pub record Encryptor : Type 0 where
  pub secret : List ℕ
  pub key_id : String

-- `__init__` with a secret of bytes.
unfoldable pub new_encryptor : List ℕ → String → Result EnvelopeError Encryptor
new_encryptor secret key_id =
    if ltb (length secret) 16
    then err short_secret
    else ok (record { secret = secret; key_id = key_id })

abbrev pub counter_limit : ℕ
counter_limit = 4294967296

-- `counter.to_bytes(4, "big")`
abbrev pub to_bytes : ℕ → List ℕ
to_bytes n = (n / 16777216) ∷ (n / 65536 % 256) ∷ (n / 256 % 256) ∷ (n % 256) ∷ []

-- `value[:n]`
abbrev pub take : ℕ → List ℕ → List ℕ
take zero xs = []
take (suc n) [] = []
take (suc n) (x ∷ xs) = x ∷ take n xs

-- `bytes(left ^ right for left, right in zip(xs, ys, strict=True))`
abbrev pub xor_bytes : List ℕ → List ℕ → Result EnvelopeError (List ℕ)
xor_bytes [] [] = ok []
xor_bytes (x ∷ xs) (y ∷ ys) = xor_bytes xs ys >>= λ rest. ok (bit_xor x y ∷ rest)
xor_bytes _ _ = err length_mismatch

module _ (c : Crypto) (e : Encryptor) where
  -- One `hmac.new(...).digest()` of the stream.
  abbrev pub block : List ℕ → ℕ → List ℕ
  block nonce counter = c.hmac_sha256 e.secret (nonce ++ to_bytes counter)

  -- The `while` loop of `_stream`, on fuel.
  unfoldable pub stream_loop : ℕ → List ℕ → ℕ → ℕ → List ℕ → Result EnvelopeError (List ℕ)
  stream_loop zero nonce size counter output = err out_of_fuel
  stream_loop (suc n) nonce size counter output =
      let rest = stream_loop n nonce size (counter + 1) (output ++ block nonce counter) in
      if ltb (length output) size
      then if ltb counter counter_limit then rest else err counter_overflow
      else ok (take size output)

  -- Each round adds a digest, so one more round than bytes is enough.
  unfoldable pub stream : List ℕ → ℕ → Result EnvelopeError (List ℕ)
  unfolding stream_loop
  stream nonce size = stream_loop (suc size) nonce size 0 []

  unfoldable pub encrypt : List ℕ → List ℕ → Result EnvelopeError EncryptedEnvelope
  encrypt nonce payload = do
    keys ← stream nonce (length payload)
    ciphertext ← xor_bytes payload keys
    let tag = c.hmac_sha256 e.secret (nonce ++ ciphertext)
    let envelope : EncryptedEnvelope = record {
      key_id = e.key_id;
      nonce = b64encode c nonce;
      ciphertext = b64encode c ciphertext;
      authentication_tag = b64encode c tag;
    }
    guard (valid_envelope envelope) empty_field
    ok envelope

  unfoldable pub decrypt : EncryptedEnvelope → Result EnvelopeError (List ℕ)
  decrypt envelope = do
    guard (envelope.key_id == e.key_id) unknown_key
    nonce ← or_raise (b64decode c envelope.nonce) bad_base64
    ciphertext ← or_raise (b64decode c envelope.ciphertext) bad_base64
    tag ← or_raise (b64decode c envelope.authentication_tag) bad_base64
    guard (c.hmac_sha256 e.secret (nonce ++ ciphertext) == tag) unauthenticated
    keys ← stream nonce (length ciphertext)
    xor_bytes ciphertext keys
