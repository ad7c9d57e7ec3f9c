-- ===== src/GraphStore.antt =====
-- ml/graph/extract.py: the graph of customers and merchants behind the network score. A set is a list
-- without repetitions, of which only membership and size are read; a dictionary from card numbers is
-- a function, and one from merchants a function too.
pub mod Community
pub mod Component
pub mod Closure
pub mod Tables
use Prim.Native.Nat.{max}
use veri_pay.Common.{
  Bool, Dict, Eq, List, Option, String, [], contains, filter, if◌then◌else◌, insert, is_some, leb,
  length, list_eq, lookup, ltb, map, nat_beq, nat_eq, none, not, option_eq, seconds, some,
  string_eq, suc, true, values, zero, ℕ, ◌&&◌, ◌*◌, ◌++◌, ◌+◌, ◌==◌, ◌∷◌,
}
use veri_pay.DecisionEngine.Float.{Float}
use veri_pay.Enums.Dispute.{dispute_reason_eq, dispute_status_eq}
use veri_pay.Enums.Payment.{
  channel_eq, payment_rail_eq, processing_path_eq, verification_outcome_eq,
}
use veri_pay.Enums.Risk.{decision_action_eq, risk_band_eq, risk_tier_eq}
use veri_pay.Enums.Token.{token_status_eq}
use veri_pay.Enums.Trust.{
  device_platform_eq, device_trust_state_eq, gpv_outcome_eq, sca_exemption_eq,
}

pub record ObservedTransaction (f : Float) : Type 0 where
  pub transaction_id : String
  pub cc_num : ℕ
  pub merchant : String
  pub amount : f.Real
  pub timestamp : ℕ
  pub flagged : Bool

-- `s.add(x)`
abbrev pub set_add {ℓ} : {A : Type ℓ} ⦃e : Eq A⦄ → A → List A → List A
set_add x xs = if contains x xs then xs else xs ++ x ∷ []

abbrev pub set_of {ℓ} : {A : Type ℓ} ⦃e : Eq A⦄ → List A → List A
set_of [] = []
set_of (x ∷ xs) = set_add x (set_of xs)

-- `GraphStore`
pub record GraphStore (f : Float) : Type 0 where
  pub txns : Dict (ObservedTransaction f)
  pub customer_merchants : ℕ → List String
  pub merchant_customers : String → List ℕ
  pub merchant_events : String → List (ℕ × ℕ × String)
  pub flagged_count : ℕ → ℕ

module _ (f : Float) where
  unfoldable pub empty_graph : GraphStore f
  empty_graph = record {
    txns = [];
    customer_merchants = λ j. [];
    merchant_customers = λ j. [];
    merchant_events = λ j. [];
    flagged_count = λ j. 0;
  }

  -- The writes of `observe` for a transaction that is new.
  abbrev pub record_tx : ObservedTransaction f → GraphStore f → GraphStore f
  record_tx tx g = record {
    txns = insert tx.transaction_id tx g.txns;
    customer_merchants = λ j.
        if nat_beq tx.cc_num j
        then set_add tx.merchant (g.customer_merchants j)
        else g.customer_merchants j;
    merchant_customers = λ m.
        if tx.merchant == m
        then set_add tx.cc_num (g.merchant_customers m)
        else g.merchant_customers m;
    merchant_events = λ m.
        if tx.merchant == m
        then g.merchant_events m ++ (tx.timestamp, tx.cc_num, tx.transaction_id) ∷ []
        else g.merchant_events m;
    flagged_count =
        λ j. if tx.flagged && nat_beq tx.cc_num j then g.flagged_count j + 1 else g.flagged_count j;
  }

  unfoldable pub observe : ObservedTransaction f → GraphStore f → GraphStore f
  observe tx g = if is_some (lookup tx.transaction_id g.txns) then g else record_tx tx g

  unfoldable pub is_flagged : ℕ → GraphStore f → Bool
  is_flagged c g = leb 1 (g.flagged_count c)

  abbrev pub latest_of : List (ObservedTransaction f) → ℕ
  latest_of [] = 0
  latest_of (t ∷ ts) = max t.timestamp (latest_of ts)

  -- `t.timestamp >= cutoff`, without a difference; no window is no cutoff.
  abbrev pub in_window : Option ℕ → GraphStore f → ℕ → Bool
  in_window none g time = true
  in_window (some n) g time = leb (latest_of (values g.txns)) (time + seconds (86400 * n))

  abbrev pub at_customer : Option ℕ → GraphStore f → ℕ → ObservedTransaction f → Bool
  at_customer window g c t = nat_beq t.cc_num c && in_window window g t.timestamp

  abbrev pub at_merchant : Option ℕ → GraphStore f → String → ObservedTransaction f → Bool
  at_merchant window g m t = t.merchant == m && in_window window g t.timestamp

  -- `_scoped_merchants`
  unfoldable pub scoped_merchants : ℕ → Option ℕ → GraphStore f → List String
  scoped_merchants c none g = g.customer_merchants c
  scoped_merchants c (some n) g = set_of (
      map (λ (t : ObservedTransaction f). t.merchant)
        (filter (at_customer (some n) g c) (values g.txns)))

  -- `_scoped_customers`
  unfoldable pub scoped_customers : String → Option ℕ → GraphStore f → List ℕ
  scoped_customers m none g = g.merchant_customers m
  scoped_customers m (some n) g = set_of (
      map (λ (t : ObservedTransaction f). t.cc_num)
        (filter (at_merchant (some n) g m) (values g.txns)))

  abbrev pub customers_at : List String → Option ℕ → GraphStore f → List ℕ
  customers_at [] window g = []
  customers_at (m ∷ ms) window g = scoped_customers m window g ++ customers_at ms window g

  -- The customers at the merchants of a customer, the customer among them.
  unfoldable pub peers_of : Option ℕ → GraphStore f → ℕ → List ℕ
  unfolding scoped_merchants scoped_customers
  peers_of window g c = customers_at (scoped_merchants c window g) window g

-- The loops of `_community_members`, for the customers `peers c` at the merchants of `c`.
module _ (peers : ℕ → List ℕ) where
  -- The innermost loops: the peers that are neither the customer nor seen.
  abbrev pub add_peers : ℕ → List ℕ → List ℕ → List ℕ → List ℕ
  add_peers c seen [] nxt = nxt
  add_peers c seen (p ∷ ps) nxt =
      add_peers c seen ps
        (if not (nat_beq p c) && not (contains p seen) then set_add p nxt else nxt)

  abbrev pub visit : ℕ → List ℕ × List ℕ → List ℕ × List ℕ
  visit c (seen, nxt) =
      if contains c seen then (seen, nxt) else (c ∷ seen, add_peers c (c ∷ seen) (peers c) nxt)

  -- One pass over the frontier.
  abbrev pub visit_all : List ℕ → List ℕ × List ℕ → List ℕ × List ℕ
  visit_all [] state = state
  visit_all (c ∷ cs) state = visit_all cs (visit c state)

  abbrev pub max_nodes : ℕ
  max_nodes = 500

  -- The `while` loop on fuel; none is fuel that is used up.
  unfoldable pub community_loop : ℕ → List ℕ → List ℕ → Option (List ℕ)
  community_loop fuel seen [] = some seen
  community_loop zero seen (c ∷ cs) = none
  community_loop (suc fuel) seen (c ∷ cs) =
      let state = visit_all (c ∷ cs) (seen, []) in
      let rest = community_loop fuel state.0 state.1 in
      if ltb max_nodes (length state.0) then some state.0 else rest

  -- Each pass but the last sees a new customer, so the cap bounds the passes.
  unfoldable pub community_from : ℕ → Option (List ℕ)
  unfolding community_loop
  community_from c = community_loop 502 [] (c ∷ [])

module _ (f : Float) where
  -- `_community_members`
  unfoldable pub community_members : ℕ → Option ℕ → GraphStore f → Option (List ℕ)
  unfolding community_from peers_of
  community_members c window g = community_from (peers_of f window g) c

  -- The typology of `_community_pattern`, by the sizes that it reads: a ratio is compared by its counts.
  unfoldable pub community_pattern : ℕ → ℕ → ℕ → String
  community_pattern members flagged merchants =
      if leb members 1
      then "isolated"
      else if leb members (2 * flagged) && leb 3 members
      then "fraud_ring"
      else if ltb 0 flagged && ltb (2 * flagged) members
      then "mixed_cluster"
      else if nat_beq merchants 1 && leb 3 members
      then "shared_merchant_collapse"
      else "normal_cluster"
