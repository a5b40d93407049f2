-- ===== src/Engine/Execute/Stepwise/Parts.antt =====
-- The steps of `execute` that do not call the guarded function.
use sudo_agent.Base.{String, refl, Bool, Option, none, some, Bool-cases, inl, inr}
use sudo_agent.Value.{Value, Fields}
use sudo_agent.Engine.Common.{
  Decision, deny, Exn, is_exception, Result, ok, err, AuditEntry, budget_exceeded,
  budget_state_error, policy_error, policy_error_from, approval_denied, approval_error,
  audit_log_error, timeout_error, exception, base_exception,
}
use sudo_agent.Engine.Services.{BudgetService, ApprovalService, Engine, Eff, raise, ◌>>◌, pure}
use sudo_agent.Engine.Build.{ExecutionState}
use sudo_agent.Engine.Logging.{
  append_entry, log_checked, audit_failure, log_decision, run_hook, count_failure, log_outcome,
}
use sudo_agent.Engine.Execute.{
  budget_failed, charge_budget, store_resolve, store_fetch, resolve_and_fetch, approval_failed,
  approval_process_failed,
}
use sudo_agent.Engine.Execute.Stepwise.{
  Preorder, BudgetMoves, StoreMoves, HookMoves, EngineMoves, IsStep, idle, await-IsStep,
  pure-IsStep, raise-IsStep, now-IsStep, bind-IsStep, attempt-IsStep, if-IsStep, noted-step,
}

module _ {W : Type 0} (o : Preorder W) (self : Engine W) (moves : EngineMoves o self) where
  pub append_entry-IsStep : (v : Value) → IsStep o (append_entry self v)
  append_entry-IsStep v = record {
    moves = λ s. noted-step o (self.append v s.world) _ _ s (moves.append v s.world);
  }

  pub log_checked-IsStep : (r : Result AuditEntry) → IsStep o (log_checked self r)
  log_checked-IsStep (ok e) = record {
    moves = λ s. noted-step o (self.log e s.world) _ _ s (moves.log e s.world);
  }
  log_checked-IsStep (err x) = idle o (λ s. refl)

  pub audit_failure-IsStep : (e : Exn) → IsStep o (audit_failure e)
  audit_failure-IsStep e =
      if-IsStep o (is_exception e) _ _ (idle o (λ s. refl)) (idle o (λ s. refl))

  pub log_decision-IsStep :
      (st : ExecutionState) (d : Decision) (reason : String) (code : Option String)
      (extra : Option Fields) (checked : Bool) (info entry : Option Fields)
      → IsStep o (log_decision self st d reason code extra checked info entry)
  unfolding log_decision
  log_decision-IsStep st d reason code extra checked info entry =
      bind-IsStep o _ _ (attempt-IsStep o _ _ (append_entry-IsStep _) audit_failure-IsStep)
        λ _. attempt-IsStep o _ _ (log_checked-IsStep _) audit_failure-IsStep

  pub run_hook-IsStep :
      (event : String) (e : Exn) (hook : Option (String → Exn → W → Result Unit × W))
      → HookMoves o hook
      → IsStep o (run_hook self event e hook)
  run_hook-IsStep event e none h = idle o (λ s. refl)
  run_hook-IsStep event e (some hook) h =
      attempt-IsStep o _ _ (await-IsStep o _ (hook event e) (h event e))
        λ x. if-IsStep o (is_exception x) (pure tt) (raise x) (pure-IsStep o tt) (raise-IsStep o x)

  pub count_failure-IsStep : (event : String) (e : Exn) → IsStep o (count_failure self event e)
  count_failure-IsStep event e = record {
    moves = λ s. elim (Bool-cases (is_exception e)) [
      | inl h ↦ rw h ((run_hook-IsStep event e self.on_error moves.on_error).moves _)
      | inr h ↦ rw h (o.relates-refl s.world)
    ];
  }

  pub log_outcome-IsStep :
      (st : ExecutionState) (reason : String) (code : Option String) (outcome : String)
      (error : Option Exn)
      → IsStep o (log_outcome self st reason code outcome error)
  unfolding log_outcome
  log_outcome-IsStep st reason code outcome error = bind-IsStep o _ _ (now-IsStep o self.clock) λ t.
      bind-IsStep o _ _ (attempt-IsStep o _ _ (append_entry-IsStep _) (count_failure-IsStep _)) λ _.
        bind-IsStep o _ _ (now-IsStep o self.clock)
          λ u. attempt-IsStep o _ _ (log_checked-IsStep _) (count_failure-IsStep _)

  pub denied-IsStep :
      (A : Type 0) (m : Eff W Unit) (e : Exn) → IsStep o m → IsStep o {A = A} (m >> raise e)
  denied-IsStep A m e q = bind-IsStep o m _ q λ _. idle o (λ s. refl)

  pub budget_failed-IsStep : (st : ExecutionState) (e : Exn) → IsStep o (budget_failed self st e)
  budget_failed-IsStep st (budget_exceeded m scope) =
      denied-IsStep _ _ _ (log_decision-IsStep st deny _ _ _ _ _ _)
  budget_failed-IsStep st (budget_state_error m) =
      denied-IsStep _ _ _ (log_decision-IsStep st deny _ _ _ _ _ _)
  budget_failed-IsStep st (policy_error m) = idle o (λ s. refl)
  budget_failed-IsStep st (policy_error_from m e) = idle o (λ s. refl)
  budget_failed-IsStep st (approval_denied m) = idle o (λ s. refl)
  budget_failed-IsStep st (approval_error m) = idle o (λ s. refl)
  budget_failed-IsStep st (audit_log_error m) = idle o (λ s. refl)
  budget_failed-IsStep st timeout_error = idle o (λ s. refl)
  budget_failed-IsStep st (exception m n) = idle o (λ s. refl)
  budget_failed-IsStep st (base_exception m) = idle o (λ s. refl)

  pub charge_budget-IsStep :
      (st : ExecutionState) (b : Option (BudgetService W))
      → BudgetMoves o b
      → IsStep o (charge_budget self st b)
  charge_budget-IsStep st none h = idle o (λ s. refl)
  charge_budget-IsStep st (some b) (check, commit) =
      attempt-IsStep o _ _
        (bind-IsStep o _ _
          (await-IsStep o _ (b.check st.request_id st.agent_id st.action st.budget_cost)
            (check st.request_id st.agent_id st.action st.budget_cost))
          λ _. await-IsStep o _ (b.commit st.request_id) (commit st.request_id))
        (budget_failed-IsStep st)

  pub store_resolve-IsStep :
      (st : ExecutionState) (state : String) (approver : Option String)
      (a : Option (ApprovalService W))
      → StoreMoves o a
      → IsStep o (store_resolve self st state approver a)
  store_resolve-IsStep st state approver none h = idle o (λ s. refl)
  store_resolve-IsStep st state approver (some a) (sweep, create, resolve, fetch) =
      await-IsStep o _ (a.resolve st.request_id state approver)
        (resolve st.request_id state approver)

  pub store_fetch-IsStep :
      (st : ExecutionState) (a : Option (ApprovalService W))
      → StoreMoves o a
      → IsStep o (store_fetch self st a)
  store_fetch-IsStep st none h = idle o (λ s. refl)
  store_fetch-IsStep st (some a) (sweep, create, resolve, fetch) =
      await-IsStep o _ (a.fetch st.request_id) (fetch st.request_id)

  pub resolve_and_fetch-IsStep :
      (st : ExecutionState) (state : String) (approver : Option String)
      → IsStep o (resolve_and_fetch self st state approver)
  resolve_and_fetch-IsStep st state approver =
      bind-IsStep o _ _
        (store_resolve-IsStep st state approver self.approval_store moves.approval_store)
        λ _. store_fetch-IsStep st self.approval_store moves.approval_store

  pub failed-IsStep : (st : ExecutionState) (e : Exn) → IsStep o (approval_process_failed self st e)
  failed-IsStep st e =
      if-IsStep o (is_exception e) _ (raise e)
        (bind-IsStep o _ _
          (bind-IsStep o _ _
            (store_resolve-IsStep st "failed" none self.approval_store moves.approval_store)
            λ _. log_decision-IsStep st deny _ _ _ _ _ _)
          λ _. raise-IsStep o (approval_error "Approval process failed"))
        (raise-IsStep o e)

  pub approval_failed-IsStep :
      (st : ExecutionState) (e : Exn) → IsStep o (approval_failed self st e)
  approval_failed-IsStep st timeout_error =
      bind-IsStep o _ _ (resolve_and_fetch-IsStep st _ _) λ entry.
        bind-IsStep o _ _ (log_decision-IsStep st deny _ _ _ _ _ _)
          λ _. raise-IsStep o (approval_denied "approval expired")
  approval_failed-IsStep st (budget_exceeded m c) = failed-IsStep st (budget_exceeded m c)
  approval_failed-IsStep st (budget_state_error m) = failed-IsStep st (budget_state_error m)
  approval_failed-IsStep st (policy_error m) = failed-IsStep st (policy_error m)
  approval_failed-IsStep st (policy_error_from m e) = failed-IsStep st (policy_error_from m e)
  approval_failed-IsStep st (approval_denied m) = failed-IsStep st (approval_denied m)
  approval_failed-IsStep st (approval_error m) = failed-IsStep st (approval_error m)
  approval_failed-IsStep st (audit_log_error m) = failed-IsStep st (audit_log_error m)
  approval_failed-IsStep st (exception m n) = failed-IsStep st (exception m n)
  approval_failed-IsStep st (base_exception m) = failed-IsStep st (base_exception m)
