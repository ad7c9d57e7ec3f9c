-- ===== src/GraphStore/Community.antt =====
-- The breadth-first search of ml/graph/extract.py, `_community_members`: it ends, and what it finds.
use veri_pay.Common.{
  All, All-append, Bool-cases, List, [], ap, arith, contains, inl, inr, length, list_eq, ltb,
  nat_beq, nat_beq_iff, nat_eq, not, option_eq, refl, some, some-injective, string_eq, subst, suc,
  sym, true, zero, ℕ, ◌&&◌, ◌++◌, ◌+◌, ◌<◌, ◌||◌, ◌∙◌, ◌∷◌, ◌≡◌, ◌≤◌, ◌⊎◌,
}
use veri_pay.Enums.Dispute.{dispute_reason_eq, dispute_status_eq}
use veri_pay.Enums.Payment.{
  channel_eq, payment_rail_eq, processing_path_eq, verification_outcome_eq,
}
use veri_pay.Enums.Risk.{decision_action_eq, risk_band_eq, risk_tier_eq}
use veri_pay.Enums.Token.{token_status_eq}
use veri_pay.Enums.Trust.{
  device_platform_eq, device_trust_state_eq, gpv_outcome_eq, sca_exemption_eq,
}
use veri_pay.GraphStore.{
  add_peers, community_from, community_loop, max_nodes, set_add, visit, visit_all,
}

pub contains-append :
    (y : ℕ) (xs ys : List ℕ) → contains y (xs ++ ys) ≡ (contains y xs || contains y ys)
contains-append y [] ys = refl
contains-append y (x ∷ xs) ys = elim (Bool-cases (nat_beq y x)) [
  | inl e ↦ rw e refl
  | inr e ↦ rw e (contains-append y xs ys)
]

pub contains-set_add_old :
    (y p : ℕ) (xs : List ℕ) → contains y xs ≡ true → contains y (set_add p xs) ≡ true
contains-set_add_old y p xs h = elim (Bool-cases (contains p xs)) [
  | inl e ↦ rw e h
  | inr e ↦ rw e (contains-append y xs (p ∷ []) ∙ rw h refl)
]

pub contains-set_add_new : (p : ℕ) (xs : List ℕ) → contains p (set_add p xs) ≡ true
contains-set_add_new p xs = elim (Bool-cases (contains p xs)) [
  | inl e ↦ rw e e
  | inr e ↦ rw e (contains-append p xs (p ∷ []) ∙ rw (e, (nat_beq_iff p p).1 refl) refl)
]

set_add-All : (P : ℕ → Type 0) (p : ℕ) (xs : List ℕ) → P p → All P xs → All P (set_add p xs)
set_add-All P p xs h g = elim (Bool-cases (contains p xs)) [
  | inl e ↦ rw e g
  | inr e ↦ rw e (All-append P xs (p ∷ []) g (h, tt))
]

-- Reachable over any chain of shared merchants.
pub data Reach (peers : ℕ → List ℕ) (c : ℕ) : ℕ → Type 0 where
  here : Reach peers c c
  next : (x y : ℕ) → Reach peers c x → contains y (peers x) ≡ true → Reach peers c y

module _ (peers : ℕ → List ℕ) where
  -- A pass sees a new customer, or it changes nothing.
  visit-grows :
      (c : ℕ) (seen nxt : List ℕ)
      → (length seen < length (visit peers c (seen, nxt)).0)
        ⊎ (visit peers c (seen, nxt) ≡ (seen, nxt))
  visit-grows c seen nxt = elim (Bool-cases (contains c seen)) [
    | inl e ↦ inr (rw e refl)
    | inr e ↦ inl (rw e (omega arith))
  ]

  visit_all-grows :
      (cs seen nxt : List ℕ)
      → (length seen < length (visit_all peers cs (seen, nxt)).0)
        ⊎ (visit_all peers cs (seen, nxt) ≡ (seen, nxt))
  visit_all-grows [] seen nxt = inr refl
  visit_all-grows (c ∷ cs) seen nxt =
      let one = visit peers c (seen, nxt) in
      elim (visit_all-grows cs one.0 one.1) [
        | inl more ↦ elim (visit-grows c seen nxt) [
          | inl e ↦ inl (omega (arith, more, e))
          | inr e ↦ inl (omega (arith, more, ap (λ s. length s.0) e))
        ]
        | inr same ↦ elim (visit-grows c seen nxt) [
          | inl e ↦ inl (omega (arith, e, ap (λ s. length s.0) same))
          | inr e ↦ inr (same ∙ e)
        ]
      ]

  pub community_loop-empty :
      (fuel : ℕ) (seen : List ℕ) → community_loop peers fuel seen [] ≡ some seen
  unfolding community_loop
  community_loop-empty zero seen = refl
  community_loop-empty (suc fuel) seen = refl

  -- Fuel for one more pass than customers are missing to the cap is enough.
  community_loop-ends :
      (fuel : ℕ) (seen frontier : List ℕ)
      → length seen ≤ max_nodes peers
      → max_nodes peers < length seen + fuel
      → (members : List ℕ) × (community_loop peers fuel seen frontier ≡ some members)
  unfolding community_loop
  community_loop-ends fuel seen [] small enough = (seen, community_loop-empty fuel seen)
  community_loop-ends zero seen (c ∷ cs) small enough = absurd (omega (arith, small, enough))
  community_loop-ends (suc fuel) seen (c ∷ cs) small enough =
      let state = visit_all peers (c ∷ cs) (seen, []) in
      elim (Bool-cases (ltb (max_nodes peers) (length state.0))) [
        | inl full ↦ (state.0, rw full refl)
        | inr room ↦ elim (visit_all-grows (c ∷ cs) seen []) [
          | inl more ↦
              let (members, found) =
                community_loop-ends fuel state.0 state.1 (ground (arith, room))
                  (omega (arith, more, enough)) in
              (members, rw room found)
          | inr same ↦ (
            state.0,
            rw room (
                ap (community_loop peers fuel state.0) (ap (λ s. s.1) same)
                ∙ community_loop-empty fuel state.0),
          )
        ]
      ]

  -- Everything that the search sees has a property that the peers of its customers have.
  add_peers-All :
      (P : ℕ → Type 0) (c : ℕ) (seen ps nxt : List ℕ)
      → All P ps
      → All P nxt
      → All P (add_peers peers c seen ps nxt)
  add_peers-All P c seen [] nxt h g = g
  add_peers-All P c seen (p ∷ ps) nxt h g =
      elim (Bool-cases (not (nat_beq p c) && not (contains p seen))) [
        | inl e ↦ rw e (add_peers-All P c seen ps (set_add p nxt) h.1 (set_add-All P p nxt h.0 g))
        | inr e ↦ rw e (add_peers-All P c seen ps nxt h.1 g)
      ]

  visit-All :
      (P : ℕ → Type 0)
      → ((x : ℕ) → P x → All P (peers x))
      → (c : ℕ) (seen nxt : List ℕ) → P c
      → All P seen
      → All P nxt
      → All P (visit peers c (seen, nxt)).0 × All P (visit peers c (seen, nxt)).1
  visit-All P closed c seen nxt hc hs hn = elim (Bool-cases (contains c seen)) [
    | inl e ↦
        let same : visit peers c (seen, nxt) ≡ (seen, nxt) = rw e refl in
        subst (λ s. All P s.0 × All P s.1) (sym same) (hs, hn)
    | inr e ↦
        let found = add_peers peers c (c ∷ seen) (peers c) nxt in
        let same : visit peers c (seen, nxt) ≡ (c ∷ seen, found) = rw e refl in
        subst (λ s. All P s.0 × All P s.1) (sym same)
          ((hc, hs), add_peers-All P c (c ∷ seen) (peers c) nxt (closed c hc) hn)
  ]

  visit_all-All :
      (P : ℕ → Type 0)
      → ((x : ℕ) → P x → All P (peers x))
      → (cs seen nxt : List ℕ) → All P cs
      → All P seen
      → All P nxt
      → All P (visit_all peers cs (seen, nxt)).0 × All P (visit_all peers cs (seen, nxt)).1
  visit_all-All P closed [] seen nxt hc hs hn = (hs, hn)
  visit_all-All P closed (c ∷ cs) seen nxt hc hs hn =
      let one = visit peers c (seen, nxt) in
      let (now, later) = visit-All P closed c seen nxt hc.0 hs hn in
      visit_all-All P closed cs one.0 one.1 hc.1 now later

  community_loop-All :
      (P : ℕ → Type 0)
      → ((x : ℕ) → P x → All P (peers x))
      → (fuel : ℕ) (seen frontier members : List ℕ) → All P seen
      → All P frontier
      → community_loop peers fuel seen frontier ≡ some members
      → All P members
  unfolding community_loop
  community_loop-All P closed fuel seen [] members hs hf h =
      subst (All P) (some-injective seen members (sym (community_loop-empty fuel seen) ∙ h)) hs
  community_loop-All P closed zero seen (c ∷ cs) members hs hf h = absurd (ground (arith, h))
  community_loop-All P closed (suc fuel) seen (c ∷ cs) members hs hf h =
      let state = visit_all peers (c ∷ cs) (seen, []) in
      let (now, later) = visit_all-All P closed (c ∷ cs) seen [] hf hs tt in
      elim (Bool-cases (ltb (max_nodes peers) (length state.0))) [
        | inl full ↦ subst (All P) (some-injective state.0 members (rw full at h)) now
        | inr room ↦
            community_loop-All P closed fuel state.0 state.1 members now later (rw room at h)
      ]

  All-contains : (P : ℕ → Type 0) (xs : List ℕ) → ((y : ℕ) → contains y xs ≡ true → P y) → All P xs
  All-contains P [] h = tt
  All-contains P (x ∷ xs) h = (
    h x (rw ((nat_beq_iff x x).1 refl) refl),
    All-contains P xs (λ y g. h y (rw g (ground arith))),
  )

  -- The search ends within its fuel, whatever the graph, and every customer that it finds is reachable
  -- from the first one over a chain of shared merchants.
  pub community_from-Reach :
      (c : ℕ)
      → (members : List ℕ) × (community_from peers c ≡ some members) × All (Reach peers c) members
  unfolding community_from
  community_from-Reach c =
      let (members, found) = community_loop-ends 502 [] (c ∷ []) (omega arith) (omega arith) in
      (
        members,
        found,
        community_loop-All (Reach peers c)
            (λ x r. All-contains (Reach peers c) (peers x) (λ y h. next x y r h)) 502 [] (c ∷ [])
            members tt (here, tt) found,
      )
