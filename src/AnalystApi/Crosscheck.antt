-- ===== src/AnalystApi/Crosscheck.antt =====
-- What the check of a generated text in services/analyst_api/veripay_analyst_api/reasoning.py lets
-- through.
use veri_pay.AnalystApi.Reasoning.{
  Numbers, allowed_number_strings, crosscheck_numbers, has_fraction, is_false, is_near, is_skipped,
  matches_allowed, none_allowed,
}
use veri_pay.Common.{
  All, Bool, Bool-cases, List, Option-cases, String, [], any, ap, arith, codes, contains, false,
  inl, inr, list_eq, nat_eq, none, not, option_eq, refl, some, string_eq, text_refl, true, ◌&&◌,
  ◌++◌, ◌==◌, ◌∷◌, ◌≡◌, ◌⊎◌,
}
use veri_pay.DecisionEngine.Decide.{candidate}
use veri_pay.DecisionEngine.Float.{Float}
use veri_pay.Enums.Dispute.{dispute_reason_eq, dispute_status_eq}
use veri_pay.Enums.Payment.{
  channel_eq, payment_rail_eq, processing_path_eq, verification_outcome_eq,
}
use veri_pay.Enums.Risk.{decision_action_eq, risk_band_eq, risk_tier_eq}
use veri_pay.Enums.Token.{token_status_eq}
use veri_pay.Enums.Trust.{
  device_platform_eq, device_trust_state_eq, gpv_outcome_eq, sca_exemption_eq,
}

incidental :
    (fraction small : Bool) → (not fraction && small) ≡ true → (fraction ≡ false) × (small ≡ true)
incidental fraction small h = ground (arith, h)

module _ (f : Float) (n : Numbers f) where
  -- The number stands in one of the texts of the payload.
  abbrev pub InPayload : List String → String → Type 0
  InPayload payload number =
      (text : String) × (contains text payload ≡ true)
      × (contains number (n.find_numbers text) ≡ true)

  -- One of the payload's numbers differs from the token by at most a twentieth of it.
  abbrev pub IsClose : List String → String → Type 0
  IsClose payload token =
      (value : f.Real) × (candidate : String) × (c : f.Real) × (n.to_float token ≡ some value)
      × InPayload payload candidate
      × (n.to_float candidate ≡ some c)
      × (f.le (n.absolute (f.sub c value)) (f.mul (n.absolute value) (f.true_div 5 100)) ≡ true)

  -- The token is no float, or it has no decimal point and its value is below the floor.
  abbrev pub IsIncidental : f.Real → String → Type 0
  IsIncidental floor token =
      (n.to_float token ≡ none)
      ⊎ ((value : f.Real) × (n.to_float token ≡ some value)
          × (contains b'.' (codes token) ≡ false)
          × (f.lt (n.absolute value) floor ≡ true))

  contains-append :
      (x : String) (xs ys : List String)
      → contains x (xs ++ ys) ≡ true
      → (contains x xs ≡ true) ⊎ (contains x ys ≡ true)
  contains-append x [] ys h = inr h
  contains-append x (y ∷ xs) ys h = elim (Bool-cases (x == y)) [
    | inl e ↦ inl (rw e refl)
    | inr e ↦ rw e (contains-append x xs ys (rw e at h))
  ]

  allowed-InPayload :
      (payload : List String) (number : String)
      → contains number (allowed_number_strings f n payload) ≡ true
      → InPayload payload number
  unfolding allowed_number_strings
  allowed-InPayload [] number h = absurd (ground (arith, h))
  allowed-InPayload (v ∷ vs) number h =
      elim (contains-append number (n.find_numbers v) (allowed_number_strings f n vs) h) [
        | inl here ↦ (v, rw (text_refl v) refl, here)
        | inr rest ↦
            let (text, there, found) = allowed-InPayload vs number rest in
            (text, rw there (ground arith), found)
      ]

  is_skipped-IsIncidental :
      (floor : f.Real) (token : String)
      → is_skipped f n floor token ≡ true
      → IsIncidental floor token
  is_skipped-IsIncidental floor token h = elim (Option-cases (n.to_float token)) [
    | inl e ↦ inl e
    | inr (value, e) ↦
        let (whole, small) =
          incidental (has_fraction f n token) (f.lt (n.absolute value) floor)
            (rw (e, is_skipped) at h) in
        inr (value, e, whole, small)
  ]

  any-near :
      (value : f.Real) (xs : List String)
      → any (is_near f n value) xs ≡ true
      → (candidate : String) × (c : f.Real) × (contains candidate xs ≡ true)
        × (n.to_float candidate ≡ some c)
        × (f.le (n.absolute (f.sub c value)) (f.mul (n.absolute value) (f.true_div 5 100)) ≡ true)
  any-near value [] h = absurd (ground (arith, h))
  any-near value (x ∷ xs) h = elim (Option-cases (n.to_float x)) [
    | inr (c, e) ↦
        elim (Bool-cases
          (f.le (n.absolute (f.sub c value)) (f.mul (n.absolute value) (f.true_div 5 100)))) [
            | inl g ↦ (x, c, rw (text_refl x) refl, e, g)
            | inr g ↦
                let (candidate, d, there, is_d, near) =
                  any-near value xs (rw (g, is_near) at (rw (e, is_near) at h)) in
                (candidate, d, rw there (ground arith), is_d, near)
          ]
    | inl e ↦
        let (candidate, d, there, is_d, near) = any-near value xs (rw (e, is_near) at h) in
        (candidate, d, rw there (ground arith), is_d, near)
  ]

  matches_allowed-cases :
      (payload : List String) (token : String)
      → matches_allowed f n token (allowed_number_strings f n payload) ≡ true
      → InPayload payload token ⊎ IsClose payload token
  unfolding matches_allowed
  matches_allowed-cases payload token h =
      let allowed = allowed_number_strings f n payload in
      elim (Bool-cases (contains token allowed)) [
        | inl e ↦ inl (allowed-InPayload payload token e)
        | inr e ↦ elim (Option-cases (n.to_float token)) [
          | inl g ↦ absurd (none_case (rw (e, g) at h))
          | inr (value, g) ↦
              let (candidate, c, there, is_c, near) = any-near value allowed (rw (e, g) at h) in
              inr (value, candidate, c, g, allowed-InPayload payload candidate there, is_c, near)
        ]
      ]
    where
      none_case : false ≡ true → ⊥
      none_case q = ground arith

  -- What the check lets through of one token: it is incidental, it stands in the payload, or it is
  -- close to a number of the payload.
  abbrev pub IsBacked : f.Real → List String → String → Type 0
  IsBacked floor payload token =
      IsIncidental floor token ⊎ InPayload payload token ⊎ IsClose payload token

  All-IsBacked :
      (floor : f.Real) (payload tokens : List String)
      → any (is_false f n floor (allowed_number_strings f n payload)) tokens ≡ false
      → All (IsBacked floor payload) tokens
  All-IsBacked floor payload [] h = tt
  All-IsBacked floor payload (x ∷ xs) h = elim (Bool-cases (is_skipped f n floor x)) [
    | inl e ↦ (
      inl (is_skipped-IsIncidental floor x e),
      All-IsBacked floor payload xs (rw (e, is_false) at h),
    )
    | inr e ↦ elim (Bool-cases (matches_allowed f n x (allowed_number_strings f n payload))) [
      | inl g ↦ (
        inr (matches_allowed-cases payload x g),
        All-IsBacked floor payload xs (rw (e, g, is_false) at h),
      )
      | inr g ↦ absurd (flagged (rw (e, g, is_false) at h))
    ]
  ]
    where
      flagged : true ≡ false → ⊥
      flagged q = ground arith

  -- A text that is checked and not flagged: every number in it is no float, has no decimal point and an
  -- absolute value below the floor, stands literally among the numbers of one of the payload's texts, or
  -- differs from such a number by at most 5 percent of itself.
  pub crosscheck_numbers-IsBacked :
      (cited : String) (payload : List String) (floor : f.Real)
      → crosscheck_numbers f n cited payload floor ≡ (true, false)
      → All (IsBacked floor payload) (n.find_numbers cited)
  unfolding crosscheck_numbers
  crosscheck_numbers-IsBacked cited payload floor h =
      let allowed = allowed_number_strings f n payload in
      elim (Bool-cases (none_allowed f n allowed)) [
        | inl e ↦ absurd (unchecked (ap (λ b. b.0) (rw e at h)))
        | inr e ↦ All-IsBacked floor payload (n.find_numbers cited) (ap (λ b. b.1) (rw e at h))
      ]
    where
      unchecked : false ≡ true → ⊥
      unchecked q = ground arith
