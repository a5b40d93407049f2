-- ===== src/Engine/Execute.antt =====
-- async_engine.py, `_evaluate_policy`, `_execute_allowed`, `_execute_with_approval` and `execute`.
pub mod Quiet
pub mod Stepwise
pub mod Guarded
pub mod Returns
pub mod Refused
pub mod BestEffort
use Prim.Native.String.{◌++◌ as ◌<>◌}
use sudo_agent.Base.{
  ℕ, ◌+◌, ◌-◌, ◌*◌, suc, String, Bool, true, false, Option, none, some, List, [], ◌∷◌, ◌==◌, leb,
  if◌then◌else◌, is_some,
}
use sudo_agent.Value.{is_null}
use sudo_agent.Value.Dict.{get}
use sudo_agent.Base.Int.{ℤ, pos, negsuc}
use sudo_agent.Value.{Value, bool, str, dict, Items, Fields, end, fields, opt_str}
use sudo_agent.Engine.Common.{
  Decision, allow, deny, require_approval, unknown, Exn, budget_exceeded, budget_state_error,
  policy_error, policy_error_from, approval_denied, approval_error, timeout_error, is_exception,
  type_name, Result, ok, err, PolicyResult, safe_message,
}
use sudo_agent.Engine.Services.{
  Policy, Response, BudgetService, ApprovalService, Engine, called, service, Run, Eff, pure, raise,
  lift, await, now, ◌>>=◌, ◌>>◌, attempt,
}
use sudo_agent.Engine.Build.{ExecutionState, build_state}
use sudo_agent.Engine.Approval.{Answer, expected_binding, parse_approval_response}
use sudo_agent.Engine.Logging.{log_decision, log_outcome}
use sudo_agent.Engine.Reasons.{
  default_reason_code, reason_code_of, scope_code, expiry, min_ttl, error_fields, not_approved,
  denied_metadata, denied_info, approved_metadata,
}

-- `approval_metadata`, if it says whether the call was approved
abbrev pub approval_info_of : Option Fields → Option Fields
approval_info_of none = none
approval_info_of (some d) = if is_null (get "approved" d) then none else some d

module _ {W : Type 0} (self : Engine W) where
  -- `_safe_error_for_ledger` under the engine's settings
  abbrev pub safe_error : Exn → Fields
  safe_error e = error_fields e self.include_error_messages self.max_error_length

  -- `_evaluate_policy`; its reason code is `reason_code_of` the result.
  abbrev pub evaluate_policy : Policy W → ExecutionState → Eff W PolicyResult
  evaluate_policy p st = attempt (await (service "policy.evaluate") (p.evaluate st.ctx)) (λ e.
      if is_exception e then raise (policy_error_from "Policy evaluation failed" e) else raise e)

  -- The handlers around the budget calls
  abbrev pub budget_failed : ExecutionState → Exn → Eff W Unit
  budget_failed st (budget_exceeded _ scope) =
      log_decision self st deny "budget exceeded" (some (scope_code scope)) none true none none
      >> raise (approval_denied "budget exceeded")
  budget_failed st (budget_state_error _) =
      log_decision self st deny "budget evaluation failed" (some "BUDGET_EVALUATION_FAILED") none
        true none none
      >> raise (approval_denied "budget evaluation failed")
  budget_failed st e = raise e

  abbrev pub charge_budget : ExecutionState → Option (BudgetService W) → Eff W Unit
  charge_budget st none = pure tt
  charge_budget st (some b) =
      attempt
        (await (service "budget.check") (b.check st.request_id st.agent_id st.action st.budget_cost)
          >> await (service "budget.commit") (b.commit st.request_id))
        (budget_failed st)

  abbrev pub store_pending : ExecutionState → ℤ → Option (ApprovalService W) → Eff W Unit
  store_pending st expires_at none = pure tt
  store_pending st expires_at (some a) =
      await (service "store.expire_expired") a.expire_expired
      >> await (service "store.create_pending")
          (a.create_pending st.request_id st.policy_hash st.decision_hash expires_at)

  abbrev pub store_resolve :
      ExecutionState → String → Option String → Option (ApprovalService W) → Eff W Unit
  store_resolve st state approver_id none = pure tt
  store_resolve st state approver_id (some a) =
      await (service "store.resolve") (a.resolve st.request_id state approver_id)

  abbrev pub store_fetch : ExecutionState → Option (ApprovalService W) → Eff W (Option Fields)
  store_fetch st none = pure none
  store_fetch st (some a) = await (service "store.fetch") (a.fetch st.request_id)

  abbrev pub max_ttl_of : Option (ApprovalService W) → Option ℤ
  max_ttl_of none = none
  max_ttl_of (some a) = a.max_ttl_seconds

  abbrev pub resolve_and_fetch : ExecutionState → String → Option String → Eff W (Option Fields)
  resolve_and_fetch st state approver_id =
      store_resolve st state approver_id self.approval_store >> store_fetch st self.approval_store

  -- The `except Exception` around the wait for the approver
  abbrev pub approval_process_failed : ExecutionState → Exn → Eff W Response
  approval_process_failed st e =
      if is_exception e
      then (store_resolve st "failed" none self.approval_store
          >> log_decision self st deny "approval process failed" (some "APPROVAL_PROCESS_FAILED")
              (some (safe_error e)) false (some (not_approved "failed")) none
          >> raise (approval_error "Approval process failed"))
      else raise e

  -- Both handlers around the wait
  abbrev pub approval_failed : ExecutionState → Exn → Eff W Response
  approval_failed st timeout_error = do
    entry ← resolve_and_fetch st "expired" none
    log_decision self st deny "approval expired" (some "APPROVAL_PROCESS_FAILED")
        (some
          (fields (("approved", bool false) ∷ ("policy_decision", str "require_approval") ∷ [])))
        false (some (not_approved "expired")) entry
    raise (approval_denied "approval expired")
  approval_failed st e = approval_process_failed st e

  -- The `except PolicyError` of `execute`
  abbrev pub policy_failed : ExecutionState → Exn → Eff W PolicyResult
  policy_failed st (policy_error_from m cause) =
      log_decision self st deny "policy evaluation failed" (some "POLICY_EVALUATION_FAILED")
        (some (safe_error cause)) false none none
      >> raise (policy_error_from m cause)
  policy_failed st e = raise e

  abbrev pub effective_policy : Option (Policy W) → Policy W
  effective_policy none = self.policy
  effective_policy (some p) = p

  module _ {R : Type 0} (func : W → Result R × W) where
    -- The `except` around the call: the outcome is logged and the exception raised again.
    abbrev pub call_failed : ExecutionState → String → Option String → Exn → Eff W R
    call_failed st reason reason_code e =
        if is_exception e
        then log_outcome self st reason reason_code "error" (some e) >> raise e
        else raise e

    -- The part of `_execute_allowed` after the decision has been logged.
    abbrev pub run_func : ExecutionState → String → Option String → Eff W R
    run_func st reason reason_code = do
      result ← attempt (await called func) (call_failed st reason reason_code)
      log_outcome self st reason reason_code "success" none
      pure result

    -- `_execute_allowed`; `approved` is the metadata of an approval, which always has `approved`.
    unfoldable pub execute_allowed :
        ExecutionState → String → Option String → Option Fields → Option Fields → Eff W R
    execute_allowed st reason reason_code approved entry = do
      charge_budget st self.budget_manager
      log_decision self st allow reason reason_code approved (is_some self.budget_manager)
          (approval_info_of approved) entry
      run_func st reason reason_code

    -- What follows the answer
    abbrev pub after_answer :
        ExecutionState → PolicyResult → Option String → Answer → Bool → Eff W R
    after_answer st result reason_code a true = do
      entry ← resolve_and_fetch st "approved" a.approver_id
      execute_allowed st result.reason reason_code (some (approved_metadata a)) entry
    after_answer st result reason_code a false = do
      entry ← resolve_and_fetch st "denied" a.approver_id
      log_decision self st deny result.reason (some "APPROVAL_DENIED") (some (denied_metadata a))
          false (some (denied_info a)) entry
      raise (approval_denied result.reason)

    -- `_execute_with_approval`
    unfoldable pub execute_with_approval : ExecutionState → PolicyResult → Option String → Eff W R
    execute_with_approval st result reason_code = do
      let ttl : ℤ = min_ttl st.approval_ttl_seconds (max_ttl_of self.approval_store)
      t ← now self.clock
      store_pending st (expiry t ttl) self.approval_store
      response ←
          attempt
            (await (service "approver.approve") (self.approve st.ctx result st.request_id ttl))
            (approval_failed st)
      let a : Answer =
          parse_approval_response self.str_of response
            (expected_binding st.request_id st.policy_hash st.decision_hash)
      after_answer st result reason_code a a.approved

    -- What `execute` does with the policy's decision
    abbrev pub decide : ExecutionState → PolicyResult → Decision → Eff W R
    decide st result allow = execute_allowed st result.reason (reason_code_of result) none none
    decide st result deny =
        log_decision self st deny result.reason (reason_code_of result) none false none none
        >> raise (approval_denied result.reason)
    decide st result require_approval = execute_with_approval st result (reason_code_of result)
    decide st result (unknown d) =
        log_decision self st deny "unknown decision type" (some "POLICY_EVALUATION_FAILED") none
          false none none
        >> raise (policy_error ("Unknown decision: " <> d))

    -- `execute`
    unfoldable pub execute :
        String → Items → Fields → Option (Policy W) → Option ℤ → Option ℤ → Eff W R
    execute action args kwargs policy_override budget_cost approval_ttl_seconds = do
      let p : Policy W = effective_policy policy_override
      st ← build_state self action args kwargs p budget_cost approval_ttl_seconds
      result ← attempt (evaluate_policy p st) (policy_failed st)
      decide st result result.decision
