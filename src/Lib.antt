-- ===== src/Lib.antt =====
-- VeriPay's core services: a model of their code, and theorems about it.
--
-- The program is a set of payment services around a shared library. A transaction enters through the
-- ingress, is scored and tiered by the risk policy, checked for compliance, and decided by the decision
-- engine; a tier above NO_RISK is verified on the payer's device through a session of the authorization
-- orchestration, whose token the shared signer issues and checks. Tokens, disputes, device challenges,
-- analyst feedback and audit events each have a repository of their own. The analyst API scores a
-- transaction through the services and keeps the analysts' queue; its graph axis comes from the graph
-- store, its verdicts reach the model monitor, and the monitor promotes retrained models in the model
-- registry.
--
-- Files, and the code that they model:
--   Enums/*: libs/veripay_common/veripay_common/enums.py. A member is a constructor, written with its
--     type, and `==` is an instance for each type that the services compare.
--   RiskPolicy, RiskPolicy/*: libs/veripay_common/veripay_common/risk_policy.py.
--   Security, Security/*: the claims and HmacVerificationTokenSigner of
--     libs/veripay_common/veripay_common/security.py. `open_token` is the try block of `verify`;
--     Envelope has HmacEnvelopeEncryptor.
--   AuthOrchestration/*: services/auth_orchestration/veripay_auth_orchestration/service.py. Requests has
--     the models, Service the state and the providers, Creation `create_session`, Completion
--     `complete_session` and `expire_session`; the other files are proofs.
--   DecisionEngine/*: services/decision_engine/veripay_decision_engine/service.py. Control has the hard
--     controls of `decide`, Decide the costs, the candidates and the selection.
--   TokenVault, TokenVault/*: services/token_vault/veripay_token_vault/service.py, and the handlers of
--     main.py that change the repository.
--   DisputeEngine, DisputeEngine/*: services/dispute_engine/veripay_dispute_engine/service.py.
--   DeviceIntegrity, DeviceIntegrity/*: the challenges, attestations and locations of
--     services/device_integrity/veripay_device_integrity/service.py.
--   ComplianceEngine, ComplianceEngine/*:
--     services/compliance_engine/veripay_compliance_engine/service.py.
--   RuleEngine, RuleEngine/*: services/rule_engine/veripay_rule_engine/service.py.
--   FiOps, FiOps/*: services/fi_ops_portal/veripay_fi_ops_portal/service.py.
--   ExternalContext, ExternalContext/*: services/external_context/veripay_external_context/service.py.
--   FinancialContext, FinancialContext/*: services/financial_context/veripay_financial_context/service.py.
--   BusinessPortal, BusinessPortal/*: services/business_portal/veripay_business_portal/service.py.
--   RiskFusion, RiskFusion/*: services/risk_fusion/veripay_risk_fusion/service.py.
--   MerchantPolicy, MerchantPolicy/*: services/merchant_policy/veripay_merchant_policy/service.py.
--   AnalystApi, AnalystApi/*: services/analyst_api/veripay_analyst_api. Adjustments, Profiles with Drift,
--     and Reasoning are adjustments.py, profiles.py and reasoning.py; Scoring and Assessment are what
--     `score` of service.py computes, Service its state, Feedback the verdicts; the other files are proofs.
--   ModelMonitor, ModelMonitor/*: services/model_monitor/veripay_model_monitor/service.py; Promotion has
--     the gate and `retrain_and_promote`.
--   ModelRegistry, ModelRegistry/*: ml/registry/model_registry.py.
--   GraphStore, GraphStore/*: ml/graph/extract.py.
--   Privacy, Privacy/*: libs/veripay_common/veripay_common/privacy.py.
--   Ingress, Ingress/*: services/ingress/veripay_ingress/service.py.
--   FeedbackLoop, FeedbackLoop/*: services/feedback_loop/veripay_feedback_loop/service.py.
--   AuditStore, AuditStore/*: services/audit_store/veripay_audit_store/service.py.
--   Common/*: what the components share: lists, options, results with `do`, dictionaries, texts.
--   Tests/*: the theorems at concrete inputs.
--
-- A service object is a record of its tables, and an operation is a function from the arguments and the
-- state to the answer and the next state. An exception is a value of the component's error type; the
-- state beside it is the state at the raise. A dictionary is a list of entries in insertion order. An
-- object of the store that Python changes in place is written back under its key.
--
-- Instants are numbers of microseconds, all zoned, and a `timedelta` of seconds is a million of them per
-- second. Every reading of the clock, random identifier and nonce is an argument of the call that draws
-- it; `complete_session` reads the clock twice and has two arguments for it. Two loops run on fuel, and
-- theorems show that it is enough: the stream of an envelope has one round more than bytes, of which each
-- round makes 32, and the search of a community has 502 passes, of which each but the last sees a new
-- customer until 500 are exceeded. Every other loop of the source is over a list.
--
-- Parameters stand for code that is not in the repository: HMAC, base64 and JSON (`Crypto`, with its
-- round trips as the hypotheses `RoundTrips` and `Base64Laws` and its digests as `IsSha256`), regular
-- expressions, numpy, `math`, `statistics` and the texts of numbers, the training run of a model, SHA-256, upper-casing and the platform's biometric check
-- (`Providers`), `float` (`Float`, with `AmountLaws`), the attestation provider, the dispute sync, and
-- the decimal printing of a number. The field constraints of a pydantic model are hypotheses where a
-- theorem needs them, and are tested by the model where a constructor in the code can raise.
--
-- Not modelled: the services of scores by trained models, the investigation agent, the features and
-- explanations of the analyst API (its feature builders and clients are parameters), the lists that it
-- only shows and its calls for community reports and graph observations, whose failures it drops, the
-- network score and the dashboard payloads of the graph, the dataset rows of a retraining, fractional
-- risk scores, HTTP routing, settings, and the code in other languages.
pub mod MerchantPolicy
pub mod GraphStore
pub mod AnalystApi
pub mod ModelMonitor
pub mod Privacy
pub mod ModelRegistry
pub mod Common
pub mod Enums
pub mod RiskFusion
pub mod RiskPolicy
pub mod Security
pub mod AuthOrchestration
pub mod DecisionEngine
pub mod TokenVault
pub mod DisputeEngine
pub mod DeviceIntegrity
pub mod BusinessPortal
pub mod ComplianceEngine
pub mod Ingress
pub mod ExternalContext
pub mod FeedbackLoop
pub mod AuditStore
pub mod Tests
pub mod RuleEngine
pub mod FiOps
pub mod FinancialContext
