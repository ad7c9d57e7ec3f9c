-- ===== src/TokenVault/Handlers.antt =====
-- The handlers of the token vault on its repository: what is stored, and what is refused.
use veri_pay.Common.{
  All, All-insert, All-lookup, Bool-cases, Dict, IsOk, IsOk-eq-ok, List, Option, Option-cases,
  Result, String, [], ap, arith, err, false, inl, inr, insert, lookup, lookup-insert, none, ok,
  refl, some, string_eq, sym, true, ℕ, ◌+◌, ◌↔◌, ◌∙◌, ◌∷◌, ◌≡◌, ◌≢◌, ◌⊎◌,
}
use veri_pay.Enums.Token.{DcvvStatus}
use veri_pay.TokenVault.{
  DcvvValidationRequest, TokenCreateRequest, TokenRecord, VaultError, consume, consume_token,
  create_token, is_usable, new_token, not_found, not_usable, validate_dcvv,
}
use veri_pay.TokenVault.Usage.{IsLimit, IsMetered, consume-IsMetered, new_token-IsMetered}

-- Every stored token stands under its identifier and is metered.
abbrev pub IsEntry : String × TokenRecord → Type 0
IsEntry (k, t) = (k ≡ t.token_id) × IsMetered t

abbrev pub IsValid : Dict TokenRecord → Type 0
IsValid = All IsEntry

-- The requests that the vault serves and that can change it.
pub data Request : Type 0 where
  create : TokenCreateRequest → Request
  use_once : String → ℕ → Request

-- A creation with a limit of at least 1; any use.
abbrev pub IsRequest : Request → Type 0
IsRequest (create r) = IsLimit r.max_uses
IsRequest (use_once id now) = Unit

-- The repository after one request, and after a sequence of them.
abbrev pub serve_one : Request → Dict TokenRecord → Dict TokenRecord
serve_one (create r) tokens = (create_token r tokens).1
serve_one (use_once id now) tokens = (consume_token id now tokens).1

pub serve : List Request → Dict TokenRecord → Dict TokenRecord
serve [] tokens = tokens
serve (r ∷ rs) tokens = serve rs (serve_one r tokens)

create_token-IsValid :
    (r : TokenCreateRequest) (tokens : Dict TokenRecord)
    → IsLimit r.max_uses
    → IsValid tokens
    → IsValid (create_token r tokens).1
unfolding create_token
create_token-IsValid r tokens h v =
    All-insert IsEntry r.token_id (new_token r) tokens (refl, new_token-IsMetered r h) v

consume_token-IsValid :
    (id : String) (now : ℕ) (tokens : Dict TokenRecord)
    → IsValid tokens
    → IsValid (consume_token id now tokens).1
unfolding consume_token
consume_token-IsValid id now tokens v = go (lookup id tokens) refl
  where
    stored :
        (t : TokenRecord)
        → lookup id tokens ≡ some t
        → (o : Result VaultError TokenRecord) → consume t now ≡ o
        → IsValid (consume_token id now tokens).1
    stored t found (err e) h = rw (found, consume_token) (rw (h, consume_token) v)
    stored t found (ok used) h =
        let (_, metered) = All-lookup IsEntry id t tokens v found in
        let (m, _, _, _, _) = consume-IsMetered t used now metered h in
        rw (found, consume_token)
          (rw (h, consume_token) (All-insert IsEntry used.token_id used tokens (refl, m) v))

    go : (o : Option TokenRecord) → lookup id tokens ≡ o → IsValid (consume_token id now tokens).1
    go none found = rw (found, consume_token) v
    go (some t) found = stored t found (consume t now) refl

serve_one-IsValid :
    (r : Request) (tokens : Dict TokenRecord)
    → IsRequest r
    → IsValid tokens
    → IsValid (serve_one r tokens)
serve_one-IsValid (create r) tokens h v = create_token-IsValid r tokens h v
serve_one-IsValid (use_once id now) tokens h v = consume_token-IsValid id now tokens v

-- Any creations with limits of at least 1 and any uses, granted or refused, keep a valid vault valid:
-- every token stands under its own identifier and has kept to its limit.
pub serve-IsValid :
    (rs : List Request) (tokens : Dict TokenRecord)
    → All IsRequest rs
    → IsValid tokens
    → IsValid (serve rs tokens)
unfolding serve
serve-IsValid [] tokens h v = v
serve-IsValid (r ∷ rs) tokens h v =
    serve-IsValid rs (serve_one r tokens) h.1 (serve_one-IsValid r tokens h.0 v)

insert-lookup :
    {id : String} (used : TokenRecord) (tokens : Dict TokenRecord)
    → used.token_id ≡ id
    → lookup id (insert used.token_id used tokens) ≡ some used
insert-lookup {id} used tokens e =
    ground (arith, lookup-insert used.token_id id used tokens, string_eq.beq_iff used.token_id id)

consume_usable : (t : TokenRecord) (now : ℕ) → is_usable t now ≡ true → IsOk (consume t now)
unfolding consume
consume_usable t now h = ground arith

consume_unusable :
    (t : TokenRecord) (now : ℕ) → is_usable t now ≡ false → consume t now ≡ err not_usable
unfolding consume
consume_unusable t now h = ground arith

-- A use of a valid vault is refused for an unknown token and for one that is not usable, both
-- without a change, and otherwise answered with the token after one more use, which is stored.
pub consume_token_lem :
    (id : String) (now : ℕ) (tokens : Dict TokenRecord)
    → IsValid tokens
    → ((lookup id tokens ≡ none) × (consume_token id now tokens ≡ (err not_found, tokens)))
      ⊎ ((t : TokenRecord) × (lookup id tokens ≡ some t)
          × (is_usable t now ≡ false)
          × (consume_token id now tokens ≡ (err not_usable, tokens)))
      ⊎ ((t : TokenRecord) × (used : TokenRecord) × (lookup id tokens ≡ some t)
          × (is_usable t now ≡ true)
          × (used.uses ≡ t.uses + 1)
          × ((consume_token id now tokens).0 ≡ ok used)
          × (lookup id (consume_token id now tokens).1 ≡ some used))
unfolding consume_token
consume_token_lem id now tokens v = elim (Option-cases (lookup id tokens)) [
  | inl missing ↦ inl (missing, rw (missing, consume_token))
  | inr (t, found) ↦ elim (Bool-cases (is_usable t now)) [
    | inr unusable ↦
        let h = consume_unusable t now unusable in
        inr (inl (t, found, unusable, rw (found, consume_token) (rw (h, consume_token))))
    | inl usable ↦
        let (used, h) = IsOk-eq-ok (consume t now) (consume_usable t now usable) in
        let (key, metered) = All-lookup IsEntry id t tokens v found in
        let (_, counted, _, _, same_id) = consume-IsMetered t used now metered h in
        let answer : consume_token id now tokens ≡ (ok used, insert used.token_id used tokens) =
          rw (found, consume_token) (rw (h, consume_token)) in
        inr (
          inr (
            t,
            used,
            found,
            usable,
            counted,
            ap (λ a. a.0) answer,
            rw answer (insert-lookup used tokens (same_id ∙ sym key)),
          ))
  ]
]

-- The dynamic CVV check: MATCH exactly for a stored and usable token whose two codes agree, MISMATCH
-- exactly where they differ, and EXPIRED for every other token.
pub validate_dcvv_lem :
    (r : DcvvValidationRequest) (tokens : Dict TokenRecord) (now : ℕ)
    → let answer = (validate_dcvv r tokens now).status in
      let usable =
        (t : TokenRecord) × (lookup r.token_id tokens ≡ some t) × (is_usable t now ≡ true) in
      ((answer ≡ DcvvStatus.match) ↔ (usable × (r.provided_dcvv ≡ r.expected_dcvv)))
      × ((answer ≡ DcvvStatus.mismatch) ↔ (usable × (r.provided_dcvv ≢ r.expected_dcvv)))
unfolding validate_dcvv
validate_dcvv_lem r tokens now = ground (arith, string_eq.beq_iff r.provided_dcvv r.expected_dcvv)
