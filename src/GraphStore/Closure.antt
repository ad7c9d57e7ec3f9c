-- ===== src/GraphStore/Closure.antt =====
-- The customers that ml/graph/extract.py, `_community_members`, returns are the whole connected
-- component, where the cap does not stop the search.
use veri_pay.Common.{
  All, All-map, Bool-cases, List, [], arith, contains, inl, inr, length, list_eq, ltb, ltb→lt,
  nat_beq, nat_beq_iff, nat_eq, option_eq, refl, some, some-injective, string_eq, subst, suc, sym,
  true, zero, ℕ, ◌<◌, ◌∙◌, ◌∷◌, ◌≡◌, ◌⊎◌,
}
use veri_pay.Enums.Dispute.{dispute_reason_eq, dispute_status_eq}
use veri_pay.Enums.Payment.{
  channel_eq, payment_rail_eq, processing_path_eq, verification_outcome_eq,
}
use veri_pay.Enums.Risk.{decision_action_eq, risk_band_eq, risk_tier_eq}
use veri_pay.Enums.Token.{token_status_eq}
use veri_pay.Enums.Trust.{
  device_platform_eq, device_trust_state_eq, gpv_outcome_eq, sca_exemption_eq,
}
use veri_pay.GraphStore.{community_from, community_loop, max_nodes, visit_all}
use veri_pay.GraphStore.Community.{Reach, community_loop-empty, here, next}
use veri_pay.GraphStore.Component.{IsCovered, known, visit_all-IsCovered}

known_shift : (y : ℕ) (seen nxt : List ℕ) → known y seen [] nxt ≡ true → known y seen nxt [] ≡ true
known_shift y seen nxt h = ground (arith, h)

known_end : (y : ℕ) (seen : List ℕ) → known y seen [] [] ≡ true → contains y seen ≡ true
known_end y seen h = ground (arith, h)

module _ (peers : ℕ → List ℕ) where
  -- The peers of every member are members.
  abbrev pub IsClosed : List ℕ → Type 0
  IsClosed members = All (λ x. All (λ y. contains y members ≡ true) (peers x)) members

  -- What the search returns: a closed set that holds `a`, or more customers than the cap.
  abbrev pub IsComponent : ℕ → List ℕ → Type 0
  IsComponent a members =
      (IsClosed members × (contains a members ≡ true)) ⊎ (max_nodes peers < length members)

  IsCovered-end : (seen : List ℕ) → IsCovered peers seen [] [] → IsClosed seen
  IsCovered-end seen h =
      All-map (λ x. All (λ y. known y seen [] [] ≡ true) (peers x))
        (λ x. All (λ y. contains y seen ≡ true) (peers x)) seen
        (λ x g.
          All-map (λ y. known y seen [] [] ≡ true) (λ y. contains y seen ≡ true) (peers x)
            (λ y k. known_end y seen k) g)
        h

  IsCovered-shift : (seen nxt : List ℕ) → IsCovered peers seen [] nxt → IsCovered peers seen nxt []
  IsCovered-shift seen nxt h =
      All-map (λ x. All (λ y. known y seen [] nxt ≡ true) (peers x))
        (λ x. All (λ y. known y seen nxt [] ≡ true) (peers x)) seen
        (λ x g.
          All-map (λ y. known y seen [] nxt ≡ true) (λ y. known y seen nxt [] ≡ true) (peers x)
            (λ y k. known_shift y seen nxt k) g)
        h

  community_loop-IsComponent :
      (a fuel : ℕ) (seen frontier members : List ℕ)
      → IsCovered peers seen frontier []
      → known a seen frontier [] ≡ true
      → community_loop peers fuel seen frontier ≡ some members
      → IsComponent a members
  unfolding community_loop
  community_loop-IsComponent a fuel seen [] members h k found =
      let same = some-injective seen members (sym (community_loop-empty peers fuel seen) ∙ found) in
      inl (
        subst (λ l. IsClosed l × (contains a l ≡ true)) same
          (IsCovered-end seen h, known_end a seen k))
  community_loop-IsComponent a zero seen (c ∷ cs) members h k found = absurd (ground (arith, found))
  community_loop-IsComponent a (suc fuel) seen (c ∷ cs) members h k found =
      let state = visit_all peers (c ∷ cs) (seen, []) in
      let (covered, there) = visit_all-IsCovered peers a (c ∷ cs) seen [] h k in
      elim (Bool-cases (ltb (max_nodes peers) (length state.0))) [
        | inl full ↦
            let same = some-injective state.0 members (rw full at found) in
            inr (
              subst (λ l. max_nodes peers < length l) same
                (ltb→lt (max_nodes peers) (length state.0) full))
        | inr room ↦
            community_loop-IsComponent a fuel state.0 state.1 members
              (IsCovered-shift state.0 state.1 covered) (known_shift a state.0 state.1 there)
              (rw room at found)
      ]

  contains-All : (P : ℕ → Type 0) (xs : List ℕ) (y : ℕ) → All P xs → contains y xs ≡ true → P y
  contains-All P [] y h g = absurd (ground (arith, g))
  contains-All P (x ∷ xs) y h g = elim (Bool-cases (nat_beq y x)) [
    | inl e ↦ subst P (sym ((nat_beq_iff y x).0 e)) h.0
    | inr e ↦ contains-All P xs y h.1 (rw e at g)
  ]

  reached :
      (c y : ℕ) (members : List ℕ)
      → Reach peers c y
      → IsClosed members
      → contains c members ≡ true
      → contains y members ≡ true
  reached c _ members here closed h = h
  reached c _ members (next x y r step) closed h =
      contains-All (λ z. contains z members ≡ true) (peers x) y
        (contains-All (λ w. All (λ z. contains z members ≡ true) (peers w)) members x closed
          (reached c x members r closed h))
        step

  -- Every customer that is reachable over a chain of shared merchants is among the members that the
  -- search returns, unless it returns more than 500.
  pub community_from_complete :
      (c y : ℕ) (members : List ℕ)
      → Reach peers c y
      → community_from peers c ≡ some members
      → (contains y members ≡ true) ⊎ (500 < length members)
  unfolding community_from
  community_from_complete c y members r found =
      elim (community_loop-IsComponent c 502 [] (c ∷ []) members tt
        (rw ((nat_beq_iff c c).1 refl) refl) found) [
          | inl (closed, h) ↦ inl (reached c y members r closed h)
          | inr large ↦ inr large
        ]
