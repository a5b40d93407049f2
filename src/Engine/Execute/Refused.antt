-- ===== src/Engine/Execute/Refused.antt =====
-- Refusals: a policy that does not allow, an approver that does not approve.
use sudo_agent.Base.{String, ◌≡◌, refl, Bool, true, false, Option, arith}
use sudo_agent.Base.Int.{ℤ}
use sudo_agent.Value.{Items, Fields}
use sudo_agent.Engine.Common.{
  Decision, allow, deny, require_approval, unknown, Exn, budget_exceeded, budget_state_error,
  policy_error, policy_error_from, approval_denied, approval_error, audit_log_error, timeout_error,
  exception, base_exception, is_exception, Result, ok, err, Context, PolicyResult,
}
use sudo_agent.Engine.Services.{Policy, Response, Engine, Run, Eff, raise, ◌>>◌}
use sudo_agent.Engine.Build.{ExecutionState}
use sudo_agent.Engine.Approval.{Answer, expected_binding, parse_approval_response}
use sudo_agent.Engine.Execute.{
  evaluate_policy, policy_failed, approval_failed, approval_process_failed, after_answer, decide,
  execute_with_approval, execute, effective_policy, max_ttl_of,
}
use sudo_agent.Engine.Reasons.{min_ttl}
use sudo_agent.Engine.Traces.{calls, CallsOf, IsQuiet, bind-IsQuiet, attempt-IsQuiet}
use sudo_agent.Engine.Execute.Quiet.{
  log_decision-IsQuiet, store_pending-IsQuiet, resolve_and_fetch-IsQuiet, approval_failed-IsQuiet,
  policy_failed-IsQuiet, evaluate_policy-IsQuiet, build_state-IsQuiet,
}
use sudo_agent.Engine.Execute.Guarded.{execute-IsGuarded, execute_with_approval-IsGuarded}
use sudo_agent.Engine.Execute.Returns.{
  Returned, Returns, bind-IsQuiet_if, attempt-Returns, bind-Returns, if-Returns, await-Returns,
  raise-Returns,
}

-- The call raised, and the guarded function was not called.
abbrev pub IsRefused : {W R : Type 0} → Run W → Result R × Run W → Type 0
IsRefused s (r, s') = ((e : Exn) × (r ≡ err e)) × (calls s'.trace ≡ calls s.trace)

module _ {W : Type 0} where
  -- With no call, nothing can have been returned.
  IsRefused-of_quiet :
      {R : Type 0} (s : Run W) (p : Result R × Run W)
      → CallsOf p.0 s.trace p.1.trace
      → calls p.1.trace ≡ calls s.trace
      → IsRefused s p
  IsRefused-of_quiet s (ok r, s') h q = absurd (omega arith)
  IsRefused-of_quiet s (err e, s') h q = ((e, refl), q)

-- A decision under which the function is not to be called.
abbrev pub refuses : Decision → Bool
refuses allow = false
refuses deny = true
refuses require_approval = false
refuses (unknown _) = true

module _ {W R : Type 0} (self : Engine W) (func : W → Result R × W) where
  denied-IsQuiet : (m : Eff W Unit) (e : Exn) → IsQuiet m → IsQuiet (m >> raise {A = R} e)
  denied-IsQuiet m e q = bind-IsQuiet m _ q λ _ s. (refl, refl)

  decide-IsQuiet :
      (st : ExecutionState) (result : PolicyResult) (d : Decision)
      → refuses d ≡ true
      → IsQuiet (decide self func st result d)
  decide-IsQuiet st result allow h = absurd (cc h)
  decide-IsQuiet st result deny h =
      denied-IsQuiet _ (approval_denied result.reason)
        (log_decision-IsQuiet self st deny _ _ _ _ _ _)
  decide-IsQuiet st result require_approval h = absurd (cc h)
  decide-IsQuiet st result (unknown d) h =
      denied-IsQuiet _ _ (log_decision-IsQuiet self st deny _ _ _ _ _ _)

  policy_failed-Returns :
      (P : PolicyResult → Type 0) (st : ExecutionState) (e : Exn)
      → Returns P (policy_failed self st e)
  policy_failed-Returns P st (policy_error_from m e) =
      bind-Returns P _ _ λ _. raise-Returns W P (policy_error_from m e)
  policy_failed-Returns P st (budget_exceeded m c) = raise-Returns W P (budget_exceeded m c)
  policy_failed-Returns P st (budget_state_error m) = raise-Returns W P (budget_state_error m)
  policy_failed-Returns P st (policy_error m) = raise-Returns W P (policy_error m)
  policy_failed-Returns P st (approval_denied m) = raise-Returns W P (approval_denied m)
  policy_failed-Returns P st (approval_error m) = raise-Returns W P (approval_error m)
  policy_failed-Returns P st (audit_log_error m) = raise-Returns W P (audit_log_error m)
  policy_failed-Returns P st timeout_error = raise-Returns W P timeout_error
  policy_failed-Returns P st (exception m n) = raise-Returns W P (exception m n)
  policy_failed-Returns P st (base_exception m) = raise-Returns W P (base_exception m)

  failed-Returns :
      (P : Response → Type 0) (st : ExecutionState) (e : Exn)
      → Returns P (approval_process_failed self st e)
  failed-Returns P st e =
      if-Returns P (is_exception e) _ _ (bind-Returns P _ _ λ _. raise-Returns W P _)
        (raise-Returns W P e)

  approval_failed-Returns :
      (P : Response → Type 0) (st : ExecutionState) (e : Exn)
      → Returns P (approval_failed self st e)
  approval_failed-Returns P st timeout_error =
      bind-Returns P _ _ λ entry. bind-Returns P _ _ λ _. raise-Returns W P _
  approval_failed-Returns P st (budget_exceeded m c) = failed-Returns P st (budget_exceeded m c)
  approval_failed-Returns P st (budget_state_error m) = failed-Returns P st (budget_state_error m)
  approval_failed-Returns P st (policy_error m) = failed-Returns P st (policy_error m)
  approval_failed-Returns P st (approval_denied m) = failed-Returns P st (approval_denied m)
  approval_failed-Returns P st (approval_error m) = failed-Returns P st (approval_error m)
  approval_failed-Returns P st (audit_log_error m) = failed-Returns P st (audit_log_error m)
  approval_failed-Returns P st (exception m n) = failed-Returns P st (exception m n)
  approval_failed-Returns P st (base_exception m) = failed-Returns P st (base_exception m)
  approval_failed-Returns P st (policy_error_from m e) = failed-Returns P st (policy_error_from m e)

  evaluate_policy-Returns :
      (P : PolicyResult → Type 0) (p : Policy W) (st : ExecutionState)
      → ((ctx : Context) (w : W) → Returned P (p.evaluate ctx w).0)
      → Returns P (evaluate_policy self p st)
  evaluate_policy-Returns P p st h =
      attempt-Returns P _ _ (await-Returns P _ (p.evaluate st.ctx) (h st.ctx))
        λ e. if-Returns P (is_exception e) _ _ (raise-Returns W P _) (raise-Returns W P e)

  -- A policy that, whatever it is shown, decides to deny, returns an unknown decision or raises:
  -- `execute` under it raises and never calls the function.
  pub execute-IsRefused :
      (action : String) (args : Items) (kwargs : Fields) (override : Option (Policy W))
      (cost ttl : Option ℤ) (s : Run W)
      → ((ctx : Context) (w : W)
          → Returned
              (λ result. refuses result.decision ≡ true)
              ((effective_policy self override).evaluate ctx w).0)
      → IsRefused s (execute self func action args kwargs override cost ttl s)
  unfolding execute
  execute-IsRefused action args kwargs override cost ttl s denies =
      IsRefused-of_quiet s (execute self func action args kwargs override cost ttl s)
        (execute-IsGuarded self func action args kwargs override cost ttl s).1 (quiet s).0
    where
      p : Policy W
      p = effective_policy self override

      P : PolicyResult → Type 0
      P result = refuses result.decision ≡ true

      quiet : IsQuiet (execute self func action args kwargs override cost ttl)
      quiet = bind-IsQuiet _ _ (build_state-IsQuiet self action args kwargs p cost ttl) λ st.
          bind-IsQuiet_if P _ _
            (attempt-IsQuiet _ _ (evaluate_policy-IsQuiet self p st)
              (policy_failed-IsQuiet self st))
            (attempt-Returns P _ _ (evaluate_policy-Returns P p st denies)
              (policy_failed-Returns P st))
            (λ result h. decide-IsQuiet st result result.decision h)

  after_answer-IsQuiet :
      (st : ExecutionState) (result : PolicyResult) (code : Option String) (a : Answer) (b : Bool)
      → b ≡ false
      → IsQuiet (after_answer self func st result code a b)
  after_answer-IsQuiet st result code a true h = absurd (cc h)
  after_answer-IsQuiet st result code a false h =
      bind-IsQuiet _ _ (resolve_and_fetch-IsQuiet self st "denied" a.approver_id) λ entry.
        denied-IsQuiet _ (approval_denied result.reason)
          (log_decision-IsQuiet self st deny result.reason _ _ _ _ entry)

  -- An approver that answers with what does not count as an approval of this request, or raises, or
  -- lets the time pass: the call that waits for it raises and never calls the function.
  pub execute_with_approval-IsRefused :
      (st : ExecutionState) (result : PolicyResult) (code : Option String) (s : Run W)
      → ((w : W)
          → Returned
              (λ response.
                (parse_approval_response self.str_of response
                  (expected_binding st.request_id st.policy_hash st.decision_hash)).approved
                ≡ false)
              (self.approve st.ctx result st.request_id
                (min_ttl st.approval_ttl_seconds (max_ttl_of self self.approval_store))
                w).0)
      → IsRefused s (execute_with_approval self func st result code s)
  unfolding execute_with_approval
  execute_with_approval-IsRefused st result code s rejects =
      IsRefused-of_quiet s (execute_with_approval self func st result code s)
        (execute_with_approval-IsGuarded self func st result code s).1 (quiet s).0
    where
      parsed : Response → Answer
      parsed response =
          parse_approval_response self.str_of response
            (expected_binding st.request_id st.policy_hash st.decision_hash)

      P : Response → Type 0
      P response = (parsed response).approved ≡ false

      quiet : IsQuiet (execute_with_approval self func st result code)
      quiet =
          bind-IsQuiet _ _ (λ s. (refl, refl))
            λ t. bind-IsQuiet _ _ (store_pending-IsQuiet self st _ self.approval_store) λ _.
              bind-IsQuiet_if P _ _
                (attempt-IsQuiet _ _ (λ s. (refl, refl)) (approval_failed-IsQuiet self st))
                (attempt-Returns P _ _ (await-Returns P _ _ rejects) (approval_failed-Returns P st))
                (λ response h. after_answer-IsQuiet st result code (parsed response) _ h)
