-- ===== src/TokenVault.antt =====
-- services/token_vault/veripay_token_vault: service.py, and the handlers of main.py. The clock
-- reading of a call is an argument.
pub mod Usage
pub mod Handlers
use veri_pay.Common.{
  Bool, Dict, Option, Result, String, err, false, if◌then◌else◌, insert, leb, lookup, ltb, none,
  not, ok, some, string_eq, true, ℕ, ◌&&◌, ◌+◌, ◌==◌,
}
use veri_pay.Enums.Token.{DcvvStatus, TokenStatus, TokenType, token_status_eq}

pub record TokenRecord : Type 0 where
  pub token_id : String
  pub merchant_id : String
  pub user_id : String
  pub token_type : TokenType
  pub status : TokenStatus
  pub expires_at : ℕ
  pub max_uses : Option ℕ
  pub uses : ℕ

pub record TokenCreateRequest : Type 0 where
  pub token_id : String
  pub merchant_id : String
  pub user_id : String
  pub token_type : TokenType
  pub expires_at : ℕ
  pub max_uses : Option ℕ

pub record DcvvValidationRequest : Type 0 where
  pub token_id : String
  pub provided_dcvv : String
  pub expected_dcvv : String

pub record DcvvValidationResponse : Type 0 where
  pub token_id : String
  pub status : DcvvStatus

pub data VaultError : Type 0 where
  not_usable not_found : VaultError

-- `token.max_uses is None or token.uses < token.max_uses`
unfoldable pub has_uses_left : TokenRecord → Bool
has_uses_left t = elim t.max_uses [ none ↦ true | some n ↦ ltb t.uses n ]

unfoldable pub is_usable : TokenRecord → ℕ → Bool
unfolding has_uses_left
is_usable t now = t.status == TokenStatus.active && ltb now t.expires_at && has_uses_left t

-- `token.max_uses is not None and token.uses >= token.max_uses`
unfoldable pub is_spent : TokenRecord → Bool
is_spent t = elim t.max_uses [ none ↦ false | some n ↦ leb n t.uses ]

unfoldable pub consume : TokenRecord → ℕ → Result VaultError TokenRecord
unfolding is_usable is_spent
consume t now =
    if not (is_usable t now)
    then err not_usable
    else (let used = record t { uses = t.uses + 1 } in
        ok (if is_spent used then record used { status = TokenStatus.exhausted } else used))

unfoldable pub validate_dcvv : DcvvValidationRequest → Dict TokenRecord → ℕ → DcvvValidationResponse
unfolding is_usable
validate_dcvv r tokens now = elim (lookup r.token_id tokens) [
  | none ↦ record { token_id = r.token_id; status = DcvvStatus.expired }
  | some t ↦
      if not (is_usable t now)
      then record { token_id = r.token_id; status = DcvvStatus.expired }
      else record {
        token_id = r.token_id;
        status =
            if r.provided_dcvv == r.expected_dcvv then DcvvStatus.match else DcvvStatus.mismatch;
      }
]

-- `TokenRecord(**request.model_dump())`: active and unused.
abbrev pub new_token : TokenCreateRequest → TokenRecord
new_token r = record {
  token_id = r.token_id;
  merchant_id = r.merchant_id;
  user_id = r.user_id;
  token_type = r.token_type;
  status = TokenStatus.active;
  expires_at = r.expires_at;
  max_uses = r.max_uses;
  uses = 0;
}

-- The handler of `POST /api/v1/tokens`, on the in-memory repository.
unfoldable pub create_token : TokenCreateRequest → Dict TokenRecord → TokenRecord × Dict TokenRecord
create_token r tokens = (new_token r, insert r.token_id (new_token r) tokens)

-- The handler of `POST /api/v1/tokens/{token_id}/consume`: 404, 409, or the token after one use.
unfoldable pub consume_token :
    String → ℕ → Dict TokenRecord → Result VaultError TokenRecord × Dict TokenRecord
consume_token id now tokens = elim (lookup id tokens) [
  | none ↦ (err not_found, tokens)
  | some t ↦ elim (consume t now) [
    | err e ↦ (err e, tokens)
    | ok updated ↦ (ok updated, insert updated.token_id updated tokens)
  ]
]
