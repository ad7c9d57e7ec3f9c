-- ===== src/Tests/Payloads.antt =====
-- The theorems on redaction and envelopes at concrete inputs.
use veri_pay.Common.{
  All, List, Option, Text, [], ap, append-nil, arith, contains, false, filter, if◌then◌else◌,
  length, list_eq, map, nat_eq, none, ok, option_eq, pos, refl, some, string_eq, sym, ℕ, ◌%◌, ◌+◌,
  ◌-◌, ◌<◌, ◌==◌, ◌∙◌, ◌∷◌, ◌≡◌,
}
use veri_pay.Common.Bits.{IsByte}
use veri_pay.Enums.Dispute.{dispute_reason_eq, dispute_status_eq}
use veri_pay.Enums.Payment.{
  channel_eq, payment_rail_eq, processing_path_eq, verification_outcome_eq,
}
use veri_pay.Enums.Risk.{decision_action_eq, risk_band_eq, risk_tier_eq}
use veri_pay.Enums.Token.{token_status_eq}
use veri_pay.Enums.Trust.{
  device_platform_eq, device_trust_state_eq, gpv_outcome_eq, sca_exemption_eq,
}
use veri_pay.Privacy.{
  Fields, Redactor, array, field, item, mapping, no_fields, no_items, redact, scalar, text, walk,
  whole,
}
use veri_pay.Privacy.Paths.{
  Step, any_sensitive, at_index, at_key, at_path, field_positions, first_sensitive, render,
}
use veri_pay.Privacy.Report.{redact-fields}
use veri_pay.Privacy.Outline.{map_found, outline, redact-at_path, token_of}
use veri_pay.Security.{Crypto, b64decode, pad}
use veri_pay.Security.Base64.{ReadsBack}
use veri_pay.Security.Encryption.{IsSha256}
use veri_pay.Security.Envelope.{
  EncryptedEnvelope, Encryptor, decrypt, encrypt, stream, stream_loop, xor_bytes,
}
use veri_pay.Security.Sealing.{decrypt-encrypt, decrypt-eq-ok}

abbrev redactor : Redactor ℕ
redactor = record {
  namespace = "veripay";
  is_sensitive = λ key. contains key ("pan" ∷ "name" ∷ []);
  str_value = λ value. "value";
  str_index = λ index. "0";
  hexdigest = λ s. "0123456789abcdef0123456789abcdef";
}

-- {"name": "Ada", "items": [{"pan": 4}, 5]}
abbrev payload : Fields ℕ
payload = field "name" (scalar (text "Ada")) (
    field "items"
      (array (
        item (mapping (field "pan" (scalar (whole (pos 4))) no_fields))
          (item (scalar (whole (pos 5))) no_items)))
      no_fields)

test_redacted : (redact redactor payload).1 ≡ "name" ∷ "items[0].pan" ∷ []
unfolding redact walk
test_redacted = refl

redact-fields_example :
    (redact redactor payload).1
    ≡ map (render redactor "") (filter (first_sensitive redactor) (field_positions payload))
redact-fields_example = redact-fields redactor payload

abbrev pan_path : List Step
pan_path = at_key "items" ∷ at_index 0 ∷ at_key "pan" ∷ []

redact-at_path_example :
    map_found outline (at_path pan_path (mapping (redact redactor payload).0)) ≡ (
      if first_sensitive redactor pan_path
      then map_found (token_of redactor) (at_path pan_path (mapping payload))
      else if any_sensitive redactor pan_path
      then none
      else map_found outline (at_path pan_path (mapping payload)))
redact-at_path_example = redact-at_path redactor pan_path payload

-- Each byte is four symbols.
abbrev encode : List ℕ → Text
encode [] = []
encode (b ∷ bs) = (b + 100) ∷ 100 ∷ 100 ∷ 100 ∷ encode bs

abbrev decode : Text → Option (List ℕ)
decode [] = some []
decode (a ∷ b ∷ c ∷ d ∷ rest) = elim (decode rest) [ none ↦ none | some bs ↦ some ((a - 100) ∷ bs) ]
decode _ = none

abbrev digest : List ℕ
digest =
    0 ∷ 0 ∷ 0 ∷ 0 ∷ 0 ∷ 0 ∷ 0 ∷ 0 ∷ 0 ∷ 0 ∷ 0 ∷ 0 ∷ 0 ∷ 0 ∷ 0 ∷ 0 ∷ 0 ∷ 0 ∷ 0 ∷ 0 ∷ 0 ∷ 0 ∷ 0 ∷ 0
    ∷ 1 ∷ 2 ∷ 3 ∷ 4 ∷ 5 ∷ 6 ∷ 7 ∷ 8 ∷ []

abbrev crypto : Crypto
crypto = record {
  hmac_sha256 = λ key body. digest;
  urlsafe_b64encode = encode;
  urlsafe_b64decode = decode;
  dumps = λ claims. [];
  loads = λ bytes. none;
}

crypto-IsSha256 : IsSha256 crypto
crypto-IsSha256 = record { digest_length = λ k m. refl; digest_bytes = λ k m. omega arith }

encode-no_pad : (v : List ℕ) → All (λ k. (k == b'=') ≡ false) (encode v)
encode-no_pad [] = tt
encode-no_pad (b ∷ bs) = (ground arith, (refl, (refl, (refl, encode-no_pad bs))))

encode-blocks : (v : List ℕ) → (length (encode v) + 0) % 4 ≡ 0
encode-blocks [] = omega arith
encode-blocks (b ∷ bs) = omega (arith, encode-blocks bs)

decode-encode : (v : List ℕ) → decode (encode v) ≡ some v
decode-encode [] = refl
decode-encode (b ∷ bs) = rw (decode-encode bs) (ap (λ n. some (n ∷ bs)) (omega arith))

abbrev reads : (v : List ℕ) → All IsByte v → ReadsBack crypto v
unfolding pad
reads v bytes = record {
  alphabet = encode v;
  padding = 0;
  form = sym (append-nil (encode v));
  no_pad = encode-no_pad v;
  padding_small = omega arith;
  blocks = encode-blocks v;
  decodes = ap decode (append-nil (encode v)) ∙ decode-encode v;
}

encode-symbols :
    (v : List ℕ) (bytes : All IsByte v) → 0 < length v → 0 < length (reads v bytes).alphabet
unfolding reads
encode-symbols [] bytes h = absurd (omega (arith, h))
encode-symbols (b ∷ bs) bytes h = omega arith

abbrev encryptor : Encryptor
encryptor = record { secret = 1 ∷ []; key_id = "local-test-key" }

decrypt-encrypt_example :
    (envelope : EncryptedEnvelope) × (encrypt crypto encryptor (7 ∷ 8 ∷ []) (65 ∷ 66 ∷ 67 ∷ [])
      ≡ ok envelope)
    × (decrypt crypto encryptor envelope ≡ ok (65 ∷ 66 ∷ 67 ∷ []))
decrypt-encrypt_example =
    decrypt-encrypt crypto crypto-IsSha256 (record { reads = reads; symbols = encode-symbols })
      encryptor (7 ∷ 8 ∷ []) (65 ∷ 66 ∷ 67 ∷ []) (omega arith) (omega arith) (omega arith)
      (omega arith) (omega arith) (omega arith)

abbrev envelope : EncryptedEnvelope
envelope = record {
  key_id = "local-test-key";
  nonce = encode (7 ∷ []);
  ciphertext = encode (65 ∷ []);
  authentication_tag = encode digest;
}

test_decrypt : decrypt crypto encryptor envelope ≡ ok (65 ∷ [])
unfolding decrypt stream stream_loop b64decode pad
test_decrypt = refl

decrypt-eq-ok_example :
    (nonce : List ℕ) × (ciphertext : List ℕ) × (keys : List ℕ) × (envelope.key_id
      ≡ encryptor.key_id)
    × (b64decode crypto envelope.nonce ≡ some nonce)
    × (b64decode crypto envelope.ciphertext ≡ some ciphertext)
    × (b64decode crypto envelope.authentication_tag ≡ some digest)
    × (stream crypto encryptor nonce (length ciphertext) ≡ ok keys)
    × (xor_bytes ciphertext keys ≡ ok (65 ∷ []))
    × (length {A = ℕ} (65 ∷ []) ≡ length ciphertext)
decrypt-eq-ok_example = decrypt-eq-ok crypto encryptor envelope (65 ∷ []) test_decrypt
