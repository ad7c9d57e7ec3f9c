-- ===== src/Security.antt =====
-- libs/veripay_common/veripay_common/security.py: the signer of verification tokens. The standard
-- library's HMAC, base64 and JSON are parameters.
pub mod Split
pub mod Token
pub mod Base64
pub mod Envelope
pub mod Encryption
pub mod Sealing
unfoldable pub use Split.{split_dot}
use veri_pay.Common.{
  Bool, List, Option, Result, String, Text, [], chars, codes, err, guard, if◌then◌else◌, leb,
  length, list_beq, list_eq, ltb, nat_beq, nat_eq, not, ok, or_raise, seconds, suc, zero, ℕ, ◌%◌,
  ◌&&◌, ◌++◌, ◌+◌, ◌-◌, ◌==◌, ◌>>=◌, ◌>>◌, ◌∷◌,
}

pub record VerificationTokenClaims : Type 0 where
  pub session_id : String
  pub transaction_id : String
  pub device_id : String
  pub nonce : String
  pub amount_minor : ℕ
  pub currency : String
  pub risk_tier : String
  pub issued_at : ℕ
  pub expires_at : ℕ
  pub token_id : String

-- The constraints of the model's fields, which its constructor checks.
unfoldable pub valid_claims : VerificationTokenClaims → Bool
valid_claims c =
    ltb 0 (chars c.session_id)
    && ltb 0 (chars c.transaction_id)
    && ltb 0 (chars c.device_id)
    && ltb 0 (chars c.nonce)
    && nat_beq (chars c.currency) 3
    && ltb 0 (chars c.risk_tier)
    && ltb 0 (chars c.token_id)

-- What the signer calls and this repository does not hold: `hmac.new(..., sha256).digest()`,
-- `urlsafe_b64encode`, `urlsafe_b64decode` (none where it raises), `json.dumps` of a model, and
-- `model_validate(json.loads(...))` (none where one of them raises). Bytes are numbers.
pub record Crypto : Type 0 where
  pub hmac_sha256 : List ℕ → List ℕ → List ℕ
  pub urlsafe_b64encode : List ℕ → Text
  pub urlsafe_b64decode : Text → Option (List ℕ)
  pub dumps : VerificationTokenClaims → List ℕ
  pub loads : List ℕ → Option VerificationTokenClaims

pub data TokenError : Type 0 where
  bad_ttl invalid expired : TokenError

-- `value.rstrip("=")`
unfoldable pub rstrip_pad : Text → Text
rstrip_pad [] = []
rstrip_pad (c ∷ cs) =
    let rest = rstrip_pad cs in if c == b'=' && list_beq rest [] then [] else c ∷ rest

-- `"=" * n`
unfoldable pub pad : ℕ → Text
pad zero = []
pad (suc n) = b'=' ∷ pad n

abbrev pub min_ttl : ℕ
min_ttl = 10

abbrev pub max_ttl : ℕ
max_ttl = 30

module _ (c : Crypto) where
  unfoldable pub b64encode : List ℕ → Text
  unfolding rstrip_pad
  b64encode value = rstrip_pad (c.urlsafe_b64encode value)

  -- `-len(value) % 4` is a number from 0 to 3.
  unfoldable pub b64decode : Text → Option (List ℕ)
  unfolding pad
  b64decode value = c.urlsafe_b64decode (value ++ pad ((4 - length value % 4) % 4))

  -- `HmacVerificationTokenSigner._sign`
  unfoldable pub sign : List ℕ → List ℕ → Text
  unfolding b64encode
  sign secret body = b64encode (c.hmac_sha256 secret body)

  -- `issue`; the instants are zoned already.
  unfoldable pub issue : List ℕ → VerificationTokenClaims → ℕ → Result TokenError Text
  unfolding b64encode sign
  issue secret claims ttl_seconds =
      if not (leb min_ttl ttl_seconds && leb ttl_seconds max_ttl)
      then err bad_ttl
      else (let body_claims = record claims {
        expires_at = claims.issued_at + seconds ttl_seconds;
      } in
          let body = c.dumps body_claims in
          ok (codes "vpt1." ++ (b64encode body ++ (b'.' ∷ sign secret body))))

  -- The `try` block of `verify`: every exception in it is the same `ValueError`.
  unfoldable pub open_token : List ℕ → Text → Result TokenError VerificationTokenClaims
  open_token secret token = do
    (version, rest) ← or_raise (split_dot token) invalid
    (encoded_body, signature) ← or_raise (split_dot rest) invalid
    guard (version == codes "vpt1") invalid
    body ← or_raise (b64decode encoded_body) invalid
    guard (sign secret body == signature) invalid
    or_raise (c.loads body) invalid

  unfoldable pub verify : List ℕ → Text → ℕ → Result TokenError VerificationTokenClaims
  verify secret token now = do
    claims ← open_token secret token
    guard (not (leb claims.expires_at now)) expired
    ok claims
