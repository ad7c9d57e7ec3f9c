-- ===== src/ComplianceEngine.antt =====
-- `evaluate_compliance` of services/compliance_engine/veripay_compliance_engine/service.py.
pub mod Outcomes
use veri_pay.Common.{
  Bool, Eq, List, Option, String, [], arith, contains, false, if◌then◌else◌, leb, ltb, nat_beq,
  none, not, some, true, ℕ, ◌&&◌, ◌*◌, ◌==◌, ◌||◌, ◌↔◌, ◌∷◌, ◌≡◌,
}
use veri_pay.Enums.Trust.{
  ComplianceStandard, DeviceTrustState, ScaExemption, device_trust_state_eq, sca_exemption_eq,
}

pub data ComplianceOutcome : Type 0 where
  pass challenge reject unavailable : ComplianceOutcome

abbrev pub compliance_outcome_index : ComplianceOutcome → ℕ
compliance_outcome_index ComplianceOutcome.pass = 0
compliance_outcome_index ComplianceOutcome.challenge = 1
compliance_outcome_index ComplianceOutcome.reject = 2
compliance_outcome_index ComplianceOutcome.unavailable = 3

pub compliance_outcome_beq_iff :
    (a b : ComplianceOutcome)
    → (nat_beq (compliance_outcome_index a) (compliance_outcome_index b) ≡ true) ↔ (a ≡ b)
compliance_outcome_beq_iff a b = ground arith

instance abbrev pub compliance_outcome_eq : Eq ComplianceOutcome
compliance_outcome_eq = record {
  beq = λ a b. nat_beq (compliance_outcome_index a) (compliance_outcome_index b);
  beq_iff = compliance_outcome_beq_iff;
}

pub record ComplianceRequest : Type 0 where
  pub transaction_id : String
  pub amount_minor : ℕ
  pub currency : String
  pub tokenized : Bool
  pub sca_exemption : ScaExemption
  pub authenticated : Bool
  pub network_trusted : Option Bool
  pub device_trust_state : DeviceTrustState
  pub device_signal_required : Bool
  pub low_value_threshold_minor : ℕ
  pub fail_closed_on_unavailable : Bool

pub record ComplianceFinding : Type 0 where
  pub standard : ComplianceStandard
  pub outcome : ComplianceOutcome
  pub triggered : Bool
  pub reason_code : String
  pub reason : String

pub record ComplianceResponse : Type 0 where
  pub transaction_id : String
  pub outcome : ComplianceOutcome
  pub blocking : Bool
  pub findings : List ComplianceFinding

abbrev finding : ComplianceStandard → ComplianceOutcome → Bool → String → String → ComplianceFinding
finding standard outcome triggered code text = record {
  standard = standard;
  outcome = outcome;
  triggered = triggered;
  reason_code = code;
  reason = text;
}

unfoldable pub token_finding : ComplianceRequest → ComplianceFinding
token_finding r =
    finding ComplianceStandard.pci_dss_4_0
      (if r.tokenized then ComplianceOutcome.pass else ComplianceOutcome.reject) (not r.tokenized)
      (if not r.tokenized then "TOKENIZATION_REQUIRED" else "TOKENIZED_INPUT")
      (if not r.tokenized
        then "Payment references must be tokenized before entering this service"
        else "Payment data is represented by a token reference")

-- `authenticated`, or an exemption and an amount of at most three times the threshold
unfoldable pub sca_satisfied : ComplianceRequest → Bool
sca_satisfied r =
    let sca_exempt = not (r.sca_exemption == ScaExemption.none) in
    r.authenticated || sca_exempt && leb r.amount_minor (r.low_value_threshold_minor * 3)

unfoldable pub sca_finding : ComplianceRequest → ComplianceFinding
unfolding sca_satisfied
sca_finding r =
    let sca_required = ltb r.low_value_threshold_minor r.amount_minor in
    if sca_satisfied r
    then finding ComplianceStandard.psd3_sca ComplianceOutcome.pass false "SCA_SATISFIED"
        "Strong customer authentication or an eligible exemption is present"
    else if sca_required
    then finding ComplianceStandard.psd3_sca ComplianceOutcome.challenge true "SCA_REQUIRED"
        "Strong customer authentication is required"
    else finding ComplianceStandard.psd3_sca ComplianceOutcome.pass false "SCA_LOW_VALUE"
        "Transaction is below the low-value SCA threshold"

abbrev network : ComplianceOutcome → Bool → String → String → ComplianceFinding
network = finding ComplianceStandard.network_zero_trust

unfoldable pub network_finding : ComplianceRequest → ComplianceFinding
network_finding r = elim r.network_trusted [
  | some false ↦
      network ComplianceOutcome.reject true "NETWORK_UNTRUSTED" "Network trust verification failed"
  | none ↦
      network ComplianceOutcome.unavailable true "NETWORK_TRUST_UNAVAILABLE"
        "Network trust evidence is unavailable"
  | some true ↦
      network ComplianceOutcome.pass false "NETWORK_TRUSTED" "Network trust verification passed"
]

-- The finding on the device, if the request requires one.
unfoldable pub device_findings : ComplianceRequest → List ComplianceFinding
device_findings r =
    if r.device_signal_required && r.device_trust_state == DeviceTrustState.untrusted
    then network ComplianceOutcome.challenge true "DEVICE_TRUST_REQUIRED"
        "A trusted device is required for this transaction"
      ∷ []
    else if r.device_signal_required && r.device_trust_state == DeviceTrustState.unknown
    then network ComplianceOutcome.unavailable true "DEVICE_TRUST_UNAVAILABLE"
        "Device trust evidence is unavailable"
      ∷ []
    else []

abbrev pub outcomes_of : List ComplianceFinding → List ComplianceOutcome
outcomes_of [] = []
outcomes_of (x ∷ xs) = x.outcome ∷ outcomes_of xs

-- The overall outcome and whether it blocks.
unfoldable pub overall : Bool → List ComplianceOutcome → ComplianceOutcome × Bool
overall fail_closed outcomes =
    if contains ComplianceOutcome.reject outcomes
    then (ComplianceOutcome.reject, true)
    else if contains ComplianceOutcome.unavailable outcomes
    then (ComplianceOutcome.unavailable, fail_closed)
    else if contains ComplianceOutcome.challenge outcomes
    then (ComplianceOutcome.challenge, true)
    else (ComplianceOutcome.pass, false)

unfoldable pub findings_of : ComplianceRequest → List ComplianceFinding
unfolding token_finding sca_finding network_finding device_findings
findings_of r = token_finding r ∷ sca_finding r ∷ network_finding r ∷ device_findings r

unfoldable pub evaluate_compliance : ComplianceRequest → ComplianceResponse
unfolding findings_of overall
evaluate_compliance r =
    let findings = findings_of r in
    let (outcome, blocking) = overall r.fail_closed_on_unavailable (outcomes_of findings) in
    record {
      transaction_id = r.transaction_id;
      outcome = outcome;
      blocking = blocking;
      findings = findings;
    }
