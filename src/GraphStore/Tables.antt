-- ===== src/GraphStore/Tables.antt =====
-- The tables of ml/graph/extract.py, `GraphStore`: each is what the observed transactions say.
use veri_pay.Common.{
  Bool, Bool-cases, Dict, Eq, List, Option-cases, String, [], any, ap, arith, beq_refl, contains,
  count_if, false, inl, inr, insert, is_some, list_eq, lookup, lookup-insert_same, nat_beq, nat_eq,
  none, option_eq, refl, string_eq, sym, values, ℕ, ◌&&◌, ◌++◌, ◌+◌, ◌==◌, ◌||◌, ◌∙◌, ◌∷◌, ◌≡◌,
}
use veri_pay.DecisionEngine.Float.{Float}
use veri_pay.Enums.Dispute.{dispute_reason_eq, dispute_status_eq}
use veri_pay.Enums.Payment.{
  channel_eq, payment_rail_eq, processing_path_eq, verification_outcome_eq,
}
use veri_pay.Enums.Risk.{decision_action_eq, risk_band_eq, risk_tier_eq}
use veri_pay.Enums.Token.{token_status_eq}
use veri_pay.Enums.Trust.{
  device_platform_eq, device_trust_state_eq, gpv_outcome_eq, sca_exemption_eq,
}
use veri_pay.GraphStore.{GraphStore, ObservedTransaction, empty_graph, observe, record_tx, set_add}

beq_sym : {A : Type 0} ⦃e : Eq A⦄ (x y : A) → (x == y) ≡ (y == x)
beq_sym ⦃e⦄ x y = elim (Bool-cases (x == y)) [
  | inl p ↦ p ∙ sym ((e.beq_iff y x).1 (sym ((e.beq_iff x y).0 p)))
  | inr p ↦ elim (Bool-cases (y == x)) [
    | inl q ↦ (e.beq_iff x y).1 (sym ((e.beq_iff y x).0 q)) ∙ sym q
    | inr q ↦ p ∙ sym q
  ]
]

contains_last :
    {A : Type 0} ⦃e : Eq A⦄ (y p : A) (xs : List A)
    → contains y (xs ++ p ∷ []) ≡ (contains y xs || p == y)
contains_last y p [] = elim (Bool-cases (y == p)) [
  | inl e ↦ rw (sym (beq_sym y p), e) refl
  | inr e ↦ rw (sym (beq_sym y p), e) refl
]
contains_last y p (x ∷ xs) = elim (Bool-cases (y == x)) [
  | inl e ↦ rw e refl
  | inr e ↦ rw e (contains_last y p xs)
]

contains-set_add :
    {A : Type 0} ⦃e : Eq A⦄ (y p : A) (xs : List A)
    → contains y (set_add p xs) ≡ (contains y xs || p == y)
contains-set_add ⦃e⦄ y p xs = elim (Bool-cases (contains p xs)) [
  | inr h ↦ rw h (contains_last y p xs)
  | inl h ↦ rw h (elim (Bool-cases (p == y)) [
    | inl q ↦ rw (q, ap (λ z. contains z xs) (sym ((e.beq_iff p y).0 q)) ∙ h) refl
    | inr q ↦ rw q (ground arith)
  ])
]

values-insert_new :
    {V : Type 0} (k : String) (v : V) (d : Dict V)
    → lookup k d ≡ none
    → values (insert k v d) ≡ values d ++ v ∷ []
unfolding values insert lookup
values-insert_new k v [] h = refl
values-insert_new k v ((j, w) ∷ d) h = elim (Bool-cases (j == k)) [
  | inl e ↦ absurd (ground (arith, rw e at h))
  | inr e ↦ rw e (ap (λ l. w ∷ l) (values-insert_new k v d (rw e at h)))
]

any-append :
    {A : Type 0} (p : A → Bool) (xs ys : List A) → any p (xs ++ ys) ≡ (any p xs || any p ys)
any-append p [] ys = refl
any-append p (x ∷ xs) ys = ground (arith, any-append p xs ys)

count_if-append :
    {A : Type 0} (p : A → Bool) (xs ys : List A)
    → count_if p (xs ++ ys) ≡ count_if p xs + count_if p ys
count_if-append p [] ys = omega arith
count_if-append p (x ∷ xs) ys = omega (arith, count_if-append p xs ys)

module _ (f : Float) where
  -- A transaction whose identifier is observed already changes nothing, whatever the rest of it.
  pub observe_again :
      (tx again : ObservedTransaction f) (g : GraphStore f)
      → again.transaction_id ≡ tx.transaction_id
      → observe f again (observe f tx g) ≡ observe f tx g
  unfolding observe
  observe_again tx again g same = elim (Bool-cases (is_some (lookup tx.transaction_id g.txns))) [
    | inl e ↦ rw (same, e, observe) (rw (e) refl)
    | inr e ↦
        let there =
          lookup-insert_same tx.transaction_id tx.transaction_id tx g.txns
            (beq_refl tx.transaction_id) in
        rw (same, e, observe) (rw (there) refl)
  ]

  abbrev pub is_edge : ℕ → String → ObservedTransaction f → Bool
  is_edge c m t = nat_beq t.cc_num c && t.merchant == m

  abbrev pub is_seed : ℕ → ObservedTransaction f → Bool
  is_seed c t = t.flagged && nat_beq t.cc_num c

  -- The tables say what the transactions say: who was seen where, from both sides, and how many
  -- flagged transactions a customer has.
  pub record IsIndexed (g : GraphStore f) : Type 0 where
    pub merchants :
        (c : ℕ) (m : String)
        → contains m (g.customer_merchants c) ≡ any (is_edge c m) (values g.txns)
    pub customers :
        (m : String) (c : ℕ)
        → contains c (g.merchant_customers m) ≡ any (is_edge c m) (values g.txns)
    pub flags : (c : ℕ) → g.flagged_count c ≡ count_if (is_seed c) (values g.txns)

  record_tx-IsIndexed :
      (tx : ObservedTransaction f) (g : GraphStore f)
      → lookup tx.transaction_id g.txns ≡ none
      → IsIndexed g
      → IsIndexed (record_tx f tx g)
  record_tx-IsIndexed tx g fresh h =
      let all_of = values-insert_new tx.transaction_id tx g.txns fresh in
      let edge_of : (c : ℕ) (m : String)
          → any (is_edge c m) (values (insert tx.transaction_id tx g.txns))
            ≡ (any (is_edge c m) (values g.txns) || (is_edge c m tx || false)) =
        λ c m. ap (any (is_edge c m)) all_of ∙ any-append (is_edge c m) (values g.txns) (tx ∷ []) in
      record {
        merchants = λ c m. elim (Bool-cases (nat_beq tx.cc_num c)) [
          | inl e ↦
              rw (edge_of c m, e)
                (contains-set_add m tx.merchant (g.customer_merchants c)
                  ∙ rw (h.merchants c m) (ground arith))
          | inr e ↦ rw (edge_of c m, e) (h.merchants c m ∙ ground arith)
        ];
        customers = λ m c. elim (Bool-cases (tx.merchant == m)) [
          | inl e ↦
              rw (edge_of c m, e)
                (contains-set_add c tx.cc_num (g.merchant_customers m)
                  ∙ rw (h.customers m c) (ground arith))
          | inr e ↦ rw (edge_of c m, e) (h.customers m c ∙ ground arith)
        ];
        flags = λ c.
            let count_of =
              ap (count_if (is_seed c)) all_of
              ∙ count_if-append (is_seed c) (values g.txns) (tx ∷ []) in
            elim (Bool-cases (is_seed c tx)) [
              | inl e ↦ rw (count_of, e) (omega (arith, h.flags c))
              | inr e ↦ rw (count_of, e) (omega (arith, h.flags c))
            ];
      }

  observe-IsIndexed :
      (tx : ObservedTransaction f) (g : GraphStore f) → IsIndexed g → IsIndexed (observe f tx g)
  unfolding observe
  observe-IsIndexed tx g h = elim (Option-cases (lookup tx.transaction_id g.txns)) [
    | inl e ↦ rw (e, observe) (record_tx-IsIndexed tx g e h)
    | inr (t, e) ↦ rw (e, observe) h
  ]

  abbrev pub observe_all : List (ObservedTransaction f) → GraphStore f → GraphStore f
  observe_all [] g = g
  observe_all (tx ∷ txs) g = observe_all txs (observe f tx g)

  observe_all_from-IsIndexed :
      (txs : List (ObservedTransaction f)) (g : GraphStore f)
      → IsIndexed g
      → IsIndexed (observe_all txs g)
  observe_all_from-IsIndexed [] g h = h
  observe_all_from-IsIndexed (tx ∷ txs) g h =
      observe_all_from-IsIndexed txs (observe f tx g) (observe-IsIndexed tx g h)

  -- After any observations, with repeated identifiers or not, the tables of the graph say exactly what
  -- its transactions say: a merchant is in a customer's set, and the customer in the merchant's, where a
  -- transaction of the two is observed, and the flag count of a customer counts the customer's flagged
  -- transactions.
  pub observe_all-IsIndexed :
      (txs : List (ObservedTransaction f)) → IsIndexed (observe_all txs (empty_graph f))
  unfolding empty_graph values
  observe_all-IsIndexed txs =
      observe_all_from-IsIndexed txs (empty_graph f)
        (record { merchants = λ c m. refl; customers = λ m c. refl; flags = λ c. refl })
