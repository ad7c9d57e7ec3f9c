-- ===== src/MerchantPolicy.antt =====
-- services/merchant_policy/veripay_merchant_policy/service.py: the rules of the merchants and their
-- evaluation. `str.split(",")` and `str.strip` are parameters.
pub mod Limits
use veri_pay.Common.{
  Bool, Dict, List, Option, String, Text, [], any, codes, contains, erase, false, filter, get_or,
  if◌then◌else◌, insert, is_some, list_eq, lookup, ltb, nat_eq, none, not, option_eq, some,
  string_eq, true, values, ℕ, ◌&&◌, ◌+◌, ◌==◌, ◌∷◌,
}
use veri_pay.Enums.Dispute.{dispute_reason_eq, dispute_status_eq}
use veri_pay.Enums.Payment.{
  channel_eq, payment_rail_eq, processing_path_eq, verification_outcome_eq,
}
use veri_pay.Enums.Risk.{decision_action_eq, risk_band_eq, risk_tier_eq}
use veri_pay.Enums.Token.{token_status_eq}
use veri_pay.Enums.Trust.{
  device_platform_eq, device_trust_state_eq, gpv_outcome_eq, sca_exemption_eq,
}

pub record MerchantLockRule : Type 0 where
  pub lock_id : String
  pub merchant_id : String
  pub allowed_mccs : Option String
  pub max_spend_per_txn_minor : Option ℕ
  pub daily_spend_limit_minor : Option ℕ
  pub velocity_limit_5m : Option ℕ
  pub enforce_merchant_lock : Bool

pub record PolicyEvaluationRequest : Type 0 where
  pub transaction_id : String
  pub merchant_id : String
  pub mcc : String
  pub amount_minor : ℕ
  pub daily_spend_minor : ℕ
  pub velocity_count_5m : ℕ

pub record PolicyFinding : Type 0 where
  pub code : String
  pub triggered : Bool
  pub reason : String

pub record PolicyEvaluationResponse : Type 0 where
  pub transaction_id : String
  pub merchant_id : String
  pub allowed : Bool
  pub rule_id : Option String
  pub findings : List PolicyFinding

pub record TextOps : Type 0 where
  pub split_comma : String → List String
  pub strip : String → String

-- The repository is its dictionary `rules`: `save`, and `delete` with whether there was a rule.
unfoldable pub save_rule : MerchantLockRule → Dict MerchantLockRule → Dict MerchantLockRule
save_rule rule rules = insert rule.lock_id rule rules

unfoldable pub delete_rule : String → Dict MerchantLockRule → Bool × Dict MerchantLockRule
delete_rule lock_id rules = (is_some (lookup lock_id rules), erase lock_id rules)

-- `a <= b` of two texts, by their code points.
unfoldable pub codes_le : Text → Text → Bool
codes_le [] ys = true
codes_le (x ∷ xs) [] = false
codes_le (x ∷ xs) (y ∷ ys) = if ltb x y then true else if ltb y x then false else codes_le xs ys

-- `sorted(rules, key=lambda rule: rule.lock_id)[-1]`: the last of the greatest.
abbrev pub greatest : MerchantLockRule → List MerchantLockRule → MerchantLockRule
greatest best [] = best
greatest best (r ∷ rs) =
    greatest (if codes_le (codes best.lock_id) (codes r.lock_id) then r else best) rs

abbrev pub greatest_of : List MerchantLockRule → Option MerchantLockRule
greatest_of [] = none
greatest_of (r ∷ rs) = some (greatest r rs)

unfoldable pub select_rule : Dict MerchantLockRule → String → Option MerchantLockRule
unfolding codes_le
select_rule rules merchant_id =
    greatest_of (filter (λ (r : MerchantLockRule). r.merchant_id == merchant_id) (values rules))

module _ (t : TextOps) where
  abbrev pub stripped : List String → List String
  stripped [] = []
  stripped (v ∷ vs) = if t.strip v == "" then stripped vs else t.strip v ∷ stripped vs

  unfoldable pub allowed_codes : Option String → List String
  allowed_codes allowed_mccs = stripped (t.split_comma (get_or allowed_mccs ""))

  abbrev pub no_codes : List String → Bool
  no_codes [] = true
  no_codes (v ∷ vs) = false

  abbrev pub exceeds : ℕ → Option ℕ → Bool
  exceeds amount none = false
  exceeds amount (some limit) = ltb limit amount

  abbrev pub finding : String → Bool → String → String → PolicyFinding
  finding code triggered bad good = record {
    code = code;
    triggered = triggered;
    reason = if triggered then bad else good;
  }

  unfoldable pub findings_of : PolicyEvaluationRequest → MerchantLockRule → List PolicyFinding
  unfolding allowed_codes
  findings_of q rule =
      let mccs = allowed_codes rule.allowed_mccs in
      finding "MCC_RESTRICTED" (not (no_codes mccs) && not (contains q.mcc mccs))
        "MCC is not allowed" "MCC allowed"
      ∷ finding "TRANSACTION_LIMIT" (exceeds q.amount_minor rule.max_spend_per_txn_minor)
          "Transaction limit exceeded" "Transaction limit not exceeded"
      ∷ finding "DAILY_LIMIT"
          (exceeds (q.daily_spend_minor + q.amount_minor) rule.daily_spend_limit_minor)
          "Daily spend limit exceeded" "Daily spend limit not exceeded"
      ∷ finding "VELOCITY_LIMIT" (exceeds q.velocity_count_5m rule.velocity_limit_5m)
          "Five-minute merchant velocity limit exceeded" "Merchant velocity limit not exceeded"
      ∷ []

  abbrev pub answer :
      PolicyEvaluationRequest → Bool → Option String → List PolicyFinding → PolicyEvaluationResponse
  answer q allowed rule_id found = record {
    transaction_id = q.transaction_id;
    merchant_id = q.merchant_id;
    allowed = allowed;
    rule_id = rule_id;
    findings = found;
  }

  abbrev pub evaluate_rule :
      PolicyEvaluationRequest → Option MerchantLockRule → PolicyEvaluationResponse
  evaluate_rule q none = answer q true none (
      record { code = "NO_POLICY"; triggered = false; reason = "No merchant policy configured" }
      ∷ [])
  evaluate_rule q (some rule) =
      if not rule.enforce_merchant_lock
      then answer q true (some rule.lock_id) (
          record {
            code = "POLICY_DISABLED";
            triggered = false;
            reason = "Merchant policy is disabled";
          }
          ∷ [])
      else answer q (not (any (λ (x : PolicyFinding). x.triggered) (findings_of q rule)))
          (some rule.lock_id) (findings_of q rule)

  unfoldable pub evaluate_policy :
      PolicyEvaluationRequest → Dict MerchantLockRule → PolicyEvaluationResponse
  unfolding select_rule findings_of
  evaluate_policy q rules = evaluate_rule q (select_rule rules q.merchant_id)
