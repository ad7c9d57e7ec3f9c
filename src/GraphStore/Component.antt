-- ===== src/GraphStore/Component.antt =====
-- The breadth-first search of ml/graph/extract.py finds the whole connected component, unless it is
-- stopped by its cap.
use veri_pay.Common.{
  All, All-map, Bool, Bool-cases, List, [], ap, arith, contains, if◌then◌else◌, inl, inr, list_eq,
  nat_beq, nat_beq_iff, nat_eq, not, option_eq, refl, string_eq, subst, sym, true, ℕ, ◌&&◌, ◌||◌,
  ◌∙◌, ◌∷◌, ◌≡◌, ◌⊎◌,
}
use veri_pay.Enums.Dispute.{dispute_reason_eq, dispute_status_eq}
use veri_pay.Enums.Payment.{
  channel_eq, payment_rail_eq, processing_path_eq, verification_outcome_eq,
}
use veri_pay.Enums.Risk.{decision_action_eq, risk_band_eq, risk_tier_eq}
use veri_pay.Enums.Token.{token_status_eq}
use veri_pay.Enums.Trust.{
  device_platform_eq, device_trust_state_eq, gpv_outcome_eq, sca_exemption_eq,
}
use veri_pay.GraphStore.{add_peers, set_add, visit, visit_all}
use veri_pay.GraphStore.Community.{contains-set_add_new, contains-set_add_old}

-- The customer is seen, or waits in this frontier or the next.
abbrev pub known : ℕ → List ℕ → List ℕ → List ℕ → Bool
known y seen cs nxt = contains y seen || (contains y cs || contains y nxt)

pub known-cases :
    (y : ℕ) (seen cs nxt : List ℕ)
    → known y seen cs nxt ≡ true
    → (contains y seen ≡ true) ⊎ (contains y cs ≡ true) ⊎ (contains y nxt ≡ true)
known-cases y seen cs nxt h = ground arith

known-seen : (y : ℕ) (seen cs nxt : List ℕ) → contains y seen ≡ true → known y seen cs nxt ≡ true
known-seen y seen cs nxt h = rw h refl

known-cs : (y : ℕ) (seen cs nxt : List ℕ) → contains y cs ≡ true → known y seen cs nxt ≡ true
known-cs y seen cs nxt h = ground (arith, h)

known-nxt : (y : ℕ) (seen cs nxt : List ℕ) → contains y nxt ≡ true → known y seen cs nxt ≡ true
known-nxt y seen cs nxt h = ground (arith, h)

contains-tail : (y x : ℕ) (xs : List ℕ) → contains y xs ≡ true → contains y (x ∷ xs) ≡ true
contains-tail y x xs h = ground (arith, h)

module _ (peers : ℕ → List ℕ) where
  add_peers-old :
      (y c : ℕ) (seen ps nxt : List ℕ)
      → contains y nxt ≡ true
      → contains y (add_peers peers c seen ps nxt) ≡ true
  add_peers-old y c seen [] nxt h = h
  add_peers-old y c seen (p ∷ ps) nxt h =
      elim (Bool-cases (not (nat_beq p c) && not (contains p seen))) [
        | inl e ↦ rw e (add_peers-old y c seen ps (set_add p nxt) (contains-set_add_old y p nxt h))
        | inr e ↦ rw e (add_peers-old y c seen ps nxt h)
      ]

  peer-known :
      (p c : ℕ) (seen cs ps nxt : List ℕ)
      → contains c seen ≡ true
      → known p seen cs (add_peers peers c seen (p ∷ ps) nxt) ≡ true
  peer-known p c seen cs ps nxt h = elim (Bool-cases (contains p seen)) [
    | inl e ↦ known-seen p seen cs (add_peers peers c seen (p ∷ ps) nxt) e
    | inr e ↦ elim (Bool-cases (nat_beq p c)) [
      | inl same ↦
          known-seen p seen cs (add_peers peers c seen (p ∷ ps) nxt)
            (rw ((nat_beq_iff p c).0 same) h)
      | inr other ↦
          known-nxt p seen cs (add_peers peers c seen (p ∷ ps) nxt)
            (rw (other, e) (add_peers-old p c seen ps (set_add p nxt) (contains-set_add_new p nxt)))
    ]
  ]

  -- Each peer is seen or put into the next frontier.
  add_peers-known :
      (c : ℕ) (seen cs ps nxt : List ℕ)
      → contains c seen ≡ true
      → All (λ y. known y seen cs (add_peers peers c seen ps nxt) ≡ true) ps
  add_peers-known c seen cs [] nxt h = tt
  add_peers-known c seen cs (p ∷ ps) nxt h = (
    peer-known p c seen cs ps nxt h,
    add_peers-known c seen cs ps
        (if not (nat_beq p c) && not (contains p seen) then set_add p nxt else nxt) h,
  )

  -- What is known stays known when the next customer of the frontier is visited.
  visit-known :
      (y c : ℕ) (seen cs nxt : List ℕ)
      → known y seen (c ∷ cs) nxt ≡ true
      → known y (visit peers c (seen, nxt)).0 cs (visit peers c (seen, nxt)).1 ≡ true
  visit-known y c seen cs nxt h = elim (Bool-cases (contains c seen)) [
    | inl e ↦
        let same : visit peers c (seen, nxt) ≡ (seen, nxt) = rw e refl in
        ap (λ s. known y s.0 cs s.1) same ∙ elim (known-cases y seen (c ∷ cs) nxt h) [
          | inl s ↦ known-seen y seen cs nxt s
          | inr (inr n) ↦ known-nxt y seen cs nxt n
          | inr (inl q) ↦ elim (Bool-cases (nat_beq y c)) [
            | inl is_c ↦ known-seen y seen cs nxt (rw ((nat_beq_iff y c).0 is_c) e)
            | inr other ↦ known-cs y seen cs nxt (rw other at q)
          ]
        ]
    | inr e ↦
        let found = add_peers peers c (c ∷ seen) (peers c) nxt in
        let same : visit peers c (seen, nxt) ≡ (c ∷ seen, found) = rw e refl in
        ap (λ s. known y s.0 cs s.1) same ∙ elim (known-cases y seen (c ∷ cs) nxt h) [
          | inl s ↦ known-seen y (c ∷ seen) cs found (contains-tail y c seen s)
          | inr (inr n) ↦
              known-nxt y (c ∷ seen) cs found (add_peers-old y c (c ∷ seen) (peers c) nxt n)
          | inr (inl q) ↦ elim (Bool-cases (nat_beq y c)) [
            | inl is_c ↦ known-seen y (c ∷ seen) cs found (rw is_c refl)
            | inr other ↦ known-cs y (c ∷ seen) cs found (rw other at q)
          ]
        ]
  ]

  -- Every peer of a seen customer is known.
  abbrev pub IsCovered : List ℕ → List ℕ → List ℕ → Type 0
  IsCovered seen cs nxt = All (λ x. All (λ y. known y seen cs nxt ≡ true) (peers x)) seen

  visit-IsCovered :
      (c : ℕ) (seen cs nxt : List ℕ)
      → IsCovered seen (c ∷ cs) nxt
      → IsCovered (visit peers c (seen, nxt)).0 cs (visit peers c (seen, nxt)).1
  visit-IsCovered c seen cs nxt h =
      let one = visit peers c (seen, nxt) in
      let old : All (λ x. All (λ y. known y one.0 cs one.1 ≡ true) (peers x)) seen =
        All-map (λ x. All (λ y. known y seen (c ∷ cs) nxt ≡ true) (peers x))
          (λ x. All (λ y. known y one.0 cs one.1 ≡ true) (peers x)) seen
          (λ x g.
            All-map (λ y. known y seen (c ∷ cs) nxt ≡ true) (λ y. known y one.0 cs one.1 ≡ true)
              (peers x) (λ y k. visit-known y c seen cs nxt k) g)
          h in
      elim (Bool-cases (contains c seen)) [
        | inl e ↦
            let same : visit peers c (seen, nxt) ≡ (seen, nxt) = rw e refl in
            subst (λ l. All (λ x. All (λ y. known y one.0 cs one.1 ≡ true) (peers x)) l)
              (sym (ap (λ s. s.0) same)) old
        | inr e ↦
            let found = add_peers peers c (c ∷ seen) (peers c) nxt in
            let same : visit peers c (seen, nxt) ≡ (c ∷ seen, found) = rw e refl in
            let new : All (λ y. known y (c ∷ seen) cs found ≡ true) (peers c) =
              add_peers-known c (c ∷ seen) cs (peers c) nxt (rw ((nat_beq_iff c c).1 refl) refl) in
            subst (λ l. All (λ x. All (λ y. known y one.0 cs one.1 ≡ true) (peers x)) l)
              (sym (ap (λ s. s.0) same))
              (subst (λ s. All (λ y. known y s.0 cs s.1 ≡ true) (peers c)) (sym same) new, old)
      ]

  pub visit_all-IsCovered :
      (a : ℕ) (cs seen nxt : List ℕ)
      → IsCovered seen cs nxt
      → known a seen cs nxt ≡ true
      → IsCovered (visit_all peers cs (seen, nxt)).0 [] (visit_all peers cs (seen, nxt)).1
        × (known a (visit_all peers cs (seen, nxt)).0 [] (visit_all peers cs (seen, nxt)).1 ≡ true)
  visit_all-IsCovered a [] seen nxt h k = (h, k)
  visit_all-IsCovered a (c ∷ cs) seen nxt h k =
      let one = visit peers c (seen, nxt) in
      visit_all-IsCovered a cs one.0 one.1 (visit-IsCovered c seen cs nxt h)
        (visit-known a c seen cs nxt k)
