-- ===== src/AuthOrchestration/Once.antt =====
-- A session of the auth orchestration is completed at most once, and a refused call changes nothing.
use veri_pay.AuthOrchestration.Binding.{
  complete_session-bound, complete_session-eq-ok, complete_session-unbound,
}
use veri_pay.AuthOrchestration.Completion.{check_binding, complete_found, complete_session, settle}
use veri_pay.AuthOrchestration.Requests.{
  VerificationCompletionRequest, VerificationResult, VerificationSession,
}
use veri_pay.AuthOrchestration.Service.{
  Providers, Service, VerificationError, already_completed, save,
}
use veri_pay.AuthOrchestration.Sessions.{IsEntry, IsValid, settle-ends}
use veri_pay.Common.{
  All-lookup, String, arith, err, lookup, lookup-insert, ok, some, string_eq, sym, ℕ, ◌∙◌, ◌≡◌, ◌≢◌,
}
use veri_pay.Enums.Payment.{VerificationOutcome}

-- A call of `complete_session` that raises leaves the sessions and the pushes as they were.
pub complete_session_error :
    (env : Providers) (now later : ℕ) (id : String) (r : VerificationCompletionRequest)
    (svc : Service) (e : VerificationError)
    → (complete_session env now later id r svc).0 ≡ err e
    → (complete_session env now later id r svc).1 ≡ svc
unfolding complete_session complete_found
complete_session_error env now later id r svc e h = ground arith

ended_binding :
    (env : Providers) (now : ℕ) (r : VerificationCompletionRequest) (s : VerificationSession)
    → s.outcome ≢ VerificationOutcome.pending
    → check_binding env now r s ≡ err already_completed
unfolding check_binding
ended_binding env now r s ended = ground arith

-- After a completion that returned, on a valid service, the next completion of the same session raises
-- that it is already completed, whatever it asks and whenever it comes, and changes nothing.
pub complete_session_once :
    (env : Providers) (now later : ℕ) (id : String) (r : VerificationCompletionRequest)
    (svc : Service) (res : VerificationResult)
    → IsValid svc
    → (complete_session env now later id r svc).0 ≡ ok res
    → (now' later' : ℕ) (r' : VerificationCompletionRequest)
    → let after = (complete_session env now later id r svc).1 in
      complete_session env now' later' id r' after ≡ (err already_completed, after)
complete_session_once env now later id r svc res valid answered now' later' r' =
    let (s, found, bound, _) = complete_session-eq-ok env now later id r svc res answered in
    let s' = (settle env later r s).0 in
    let (ended, same_id) = settle-ends env later r s in
    let (key, _) = All-lookup IsEntry id s svc.sessions valid found in
    let e : s'.session_id ≡ id = same_id ∙ sym key in
    let refound : lookup id (save s' svc).sessions ≡ some s' =
      ground (
        arith,
        lookup-insert s'.session_id id s' svc.sessions,
        string_eq.beq_iff s'.session_id id,
      ) in
    rw (complete_session-bound env now later id r svc s found bound) (
      complete_session-unbound env now' later' id r' (save s' svc) s' refound already_completed
        (ended_binding env now' r' s' ended))
