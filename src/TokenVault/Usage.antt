-- ===== src/TokenVault/Usage.antt =====
-- How often a token of the vault can be used.
use veri_pay.Common.{
  All, IsOk, IsOk-eq-ok, List, Option, Result, [], arith, err, inl, inr, length, min, none, ok,
  refl, some, subst, suc, sym, ℕ, ◌+◌, ◌-◌, ◌<◌, ◌↔◌, ◌∷◌, ◌≡◌, ◌≢◌, ◌≤◌, ◌⊎◌,
}
use veri_pay.Enums.Token.{TokenStatus}
use veri_pay.TokenVault.{
  TokenCreateRequest, TokenRecord, VaultError, consume, new_token, not_usable,
}

-- The use counter keeps to the limit, and a token with a limit is exhausted as soon as it has used
-- it up; a token without a limit is never exhausted.
abbrev pub Metered : Option ℕ → TokenStatus → ℕ → Type 0
Metered none status uses = status ≢ TokenStatus.exhausted
Metered (some n) TokenStatus.active uses = uses < n
Metered (some n) TokenStatus.exhausted uses = uses ≡ n
Metered (some n) TokenStatus.revoked uses = uses ≤ n

abbrev pub IsMetered : TokenRecord → Type 0
IsMetered t = Metered t.max_uses t.status t.uses

-- A limit of at least 1, as the field of the request wants.
abbrev pub IsLimit : Option ℕ → Type 0
IsLimit none = Unit
IsLimit (some n) = 1 ≤ n

Metered-from_zero : (limit : Option ℕ) → IsLimit limit → Metered limit TokenStatus.active 0
Metered-from_zero none h = ground arith
Metered-from_zero (some n) h = h

pub new_token-IsMetered : (r : TokenCreateRequest) → IsLimit r.max_uses → IsMetered (new_token r)
new_token-IsMetered r h = Metered-from_zero r.max_uses h

-- A use that is granted keeps the meter, adds one to the counter, and keeps the limit, the expiry
-- and the identifier.
pub consume-IsMetered :
    (t used : TokenRecord) (now : ℕ)
    → IsMetered t
    → consume t now ≡ ok used
    → IsMetered used
      × (used.uses ≡ t.uses + 1)
      × (used.max_uses ≡ t.max_uses)
      × (used.expires_at ≡ t.expires_at)
      × (used.token_id ≡ t.token_id)
unfolding consume
consume-IsMetered t used now m h =
    (ground arith, ground arith, ground arith, ground arith, ground arith)

-- A metered token grants a use exactly while it is active and has not expired.
pub consume-IsOk :
    (t : TokenRecord) (now : ℕ)
    → IsMetered t
    → IsOk (consume t now) ↔ ((t.status ≡ TokenStatus.active) × (now < t.expires_at))
unfolding consume
consume-IsOk t now m = ground arith

-- Adds a use that is granted to those that follow it.
abbrev pub grant : Result VaultError TokenRecord → ℕ → (TokenRecord → ℕ) → ℕ
grant (err e) refused rest = refused
grant (ok used) refused rest = suc (rest used)

-- The uses granted to a token that is asked for one at each of the given times.
pub granted : TokenRecord → List ℕ → ℕ
granted t [] = 0
granted t (now ∷ times) = grant (consume t now) (granted t times) (λ used. granted used times)

-- The uses that a limit leaves, of those asked for.
abbrev pub remaining : Option ℕ → ℕ → ℕ → ℕ
remaining none uses asked = asked
remaining (some n) uses asked = min asked (n - uses)

-- A granted use never revokes, and is granted to an active token.
consume_status :
    (t used : TokenRecord) (now : ℕ)
    → consume t now ≡ ok used
    → (t.status ≡ TokenStatus.active) × (used.status ≢ TokenStatus.revoked)
unfolding consume
consume_status t used now h = ground arith

consume_refused :
    (t : TokenRecord) (now : ℕ) → t.status ≢ TokenStatus.active → consume t now ≡ err not_usable
unfolding consume
consume_refused t now h = ground arith

-- Nothing is left of an exhausted token, and of an active one at least one use.
remaining_exhausted :
    (limit : Option ℕ) (uses asked : ℕ)
    → Metered limit TokenStatus.exhausted uses
    → remaining limit uses asked ≡ 0
remaining_exhausted none uses asked m = absurd (m refl)
remaining_exhausted (some n) uses asked m = omega (arith, m)

remaining_active :
    (limit : Option ℕ) (uses asked : ℕ)
    → Metered limit TokenStatus.active uses
    → remaining limit uses (suc asked) ≡ suc (remaining limit (uses + 1) asked)
remaining_active none uses asked m = refl
remaining_active (some n) uses asked m = omega (arith, m)

module _ (t : TokenRecord) (now : ℕ) (times : List ℕ) where
  granted_used :
      (used : TokenRecord)
      → IsMetered t
      → consume t now ≡ ok used
      → granted used times ≡ remaining used.max_uses used.uses (length times)
      → granted t (now ∷ times) ≡ remaining t.max_uses t.uses (length (now ∷ times))
  unfolding granted
  granted_used used m h ih =
      let (_, counted, limit, _, _) = consume-IsMetered t used now m h in
      let (active, _) = consume_status t used now h in
      rw (h, ih, limit, counted)
        (sym (
          remaining_active t.max_uses t.uses (length times)
            (subst (λ s. Metered t.max_uses s t.uses) active m)))

  granted_refused :
      IsMetered t
      → t.status ≡ TokenStatus.exhausted
      → granted t times ≡ remaining t.max_uses t.uses (length times)
      → granted t (now ∷ times) ≡ remaining t.max_uses t.uses (length (now ∷ times))
  unfolding granted
  granted_refused m e ih =
      let full = subst (λ s. Metered t.max_uses s t.uses) e m in
      let refused : consume t now ≡ err not_usable = consume_refused t now (λ a. cc) in
      rw (refused, ih, remaining_exhausted t.max_uses t.uses (length times) full)
        (sym (remaining_exhausted t.max_uses t.uses (suc (length times)) full))

remaining_none : (limit : Option ℕ) (uses : ℕ) → remaining limit uses 0 ≡ 0
remaining_none none uses = refl
remaining_none (some n) uses = omega arith

status_split :
    (s : TokenStatus)
    → s ≢ TokenStatus.revoked
    → (s ≡ TokenStatus.active) ⊎ (s ≡ TokenStatus.exhausted)
status_split s h = ground arith

-- A metered token that was not revoked grants, to requests before its expiry, exactly the uses
-- that its limit leaves, and every one of them if it has no limit, whatever its type.
pub granted-eq-remaining :
    (t : TokenRecord) (times : List ℕ)
    → IsMetered t
    → t.status ≢ TokenStatus.revoked
    → All (λ now. now < t.expires_at) times
    → granted t times ≡ remaining t.max_uses t.uses (length times)
unfolding granted
granted-eq-remaining t [] m kept live = sym (remaining_none t.max_uses t.uses)
granted-eq-remaining t (now ∷ times) m kept live = elim (status_split t.status kept) [
  | inl active ↦
      let (used, h) = IsOk-eq-ok (consume t now) ((consume-IsOk t now m).1 (active, live.0)) in
      let (metered, _, _, same, _) = consume-IsMetered t used now m h in
      granted_used t now times used m h
        (granted-eq-remaining used times metered (consume_status t used now h).1 (rw same live.1))
  | inr exhausted ↦
      granted_refused t now times m exhausted (granted-eq-remaining t times m kept live.1)
]
