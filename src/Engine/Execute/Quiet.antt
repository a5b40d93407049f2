-- ===== src/Engine/Execute/Quiet.antt =====
-- The parts of `execute` that do not call the guarded function.
use sudo_agent.Base.{
  String, refl, Bool, true, false, Option, none, some, Bool-cases, inl, inr, if◌then◌else◌,
}
use sudo_agent.Base.Int.{ℤ}
use sudo_agent.Value.{Value, Items, Fields}
use sudo_agent.Engine.Common.{
  Decision, deny, Exn, is_exception, Result, ok, err, AuditEntry, budget_exceeded,
  budget_state_error, policy_error, policy_error_from, approval_denied, approval_error,
  audit_log_error, timeout_error, exception, base_exception,
}
use sudo_agent.Engine.Services.{
  Policy, BudgetService, ApprovalService, Engine, appended, append_failed, logged, log_failed, Run,
  Eff, raise, lift, ◌>>◌,
}
use sudo_agent.Engine.Build.{ExecutionState, build_state, policy_hash_of}
use sudo_agent.Engine.Logging.{
  noted, append_entry, log_checked, audit_failure, log_decision, run_hook, count_failure,
  log_outcome,
}
use sudo_agent.Engine.Execute.{
  evaluate_policy, budget_failed, charge_budget, store_pending, store_resolve, store_fetch,
  resolve_and_fetch, approval_failed, approval_process_failed, policy_failed,
}
use sudo_agent.Engine.Traces.{Still, IsQuiet, bind-IsQuiet, attempt-IsQuiet}

module _ {W : Type 0} where
  noted-appended-Still :
      {A : Type 0} (p : Result A × W) (v : Value) (s : Run W)
      → Still s.trace (noted p (appended v) append_failed s).1.trace
  noted-appended-Still (ok a, w) v s = (refl, refl)
  noted-appended-Still (err e, w) v s = (refl, refl)

  noted-logged-Still :
      {A : Type 0} (p : Result A × W) (e : AuditEntry) (s : Run W)
      → Still s.trace (noted p (logged e) log_failed s).1.trace
  noted-logged-Still (ok a, w) e s = (refl, refl)
  noted-logged-Still (err x, w) e s = (refl, refl)

  pub if-IsQuiet :
      {A : Type 0} (b : Bool) (m k : Eff W A) → IsQuiet m → IsQuiet k → IsQuiet (if b then m else k)
  if-IsQuiet true m k q r = q
  if-IsQuiet false m k q r = r

module _ {W : Type 0} (self : Engine W) where
  append_entry-IsQuiet : (v : Value) → IsQuiet (append_entry self v)
  append_entry-IsQuiet v s = noted-appended-Still (self.append v s.world) v s

  log_checked-IsQuiet : (r : Result AuditEntry) → IsQuiet (log_checked self r)
  log_checked-IsQuiet (ok e) = λ s. noted-logged-Still (self.log e s.world) e s
  log_checked-IsQuiet (err x) = λ s. (refl, refl)

  audit_failure-IsQuiet : (e : Exn) → IsQuiet {W = W} (audit_failure e)
  audit_failure-IsQuiet e = if-IsQuiet (is_exception e) _ _ (λ s. (refl, refl)) (λ s. (refl, refl))

  pub log_decision-IsQuiet :
      (st : ExecutionState) (d : Decision) (reason : String) (code : Option String)
      (extra : Option Fields) (checked : Bool) (info entry : Option Fields)
      → IsQuiet (log_decision self st d reason code extra checked info entry)
  unfolding log_decision
  log_decision-IsQuiet st d reason code extra checked info entry =
      bind-IsQuiet _ _ (attempt-IsQuiet _ _ (append_entry-IsQuiet _) audit_failure-IsQuiet)
        λ _. attempt-IsQuiet _ _ (log_checked-IsQuiet _) audit_failure-IsQuiet

  run_hook-IsQuiet :
      (event : String) (e : Exn) (hook : Option (String → Exn → W → Result Unit × W))
      → IsQuiet (run_hook self event e hook)
  run_hook-IsQuiet event e none = λ s. (refl, refl)
  run_hook-IsQuiet event e (some hook) =
      attempt-IsQuiet _ _ (λ s. (refl, refl))
        λ x. if-IsQuiet (is_exception x) _ _ (λ s. (refl, refl)) (λ s. (refl, refl))

  count_failure-IsQuiet : (event : String) (e : Exn) → IsQuiet (count_failure self event e)
  count_failure-IsQuiet event e s = elim (Bool-cases (is_exception e)) [
    | inl h ↦ rw h (run_hook-IsQuiet event e self.on_error _)
    | inr h ↦ rw h (refl, refl)
  ]

  pub log_outcome-IsQuiet :
      (st : ExecutionState) (reason : String) (code : Option String) (outcome : String)
      (error : Option Exn)
      → IsQuiet (log_outcome self st reason code outcome error)
  unfolding log_outcome
  log_outcome-IsQuiet st reason code outcome error =
      bind-IsQuiet _ _ (λ s. (refl, refl))
        λ t.
          bind-IsQuiet _ _ (attempt-IsQuiet _ _ (append_entry-IsQuiet _) (count_failure-IsQuiet _))
            λ _.
              bind-IsQuiet _ _ (λ s. (refl, refl))
                λ u. attempt-IsQuiet _ _ (log_checked-IsQuiet _) (count_failure-IsQuiet _)

  denied-IsQuiet :
      (A : Type 0) (m : Eff W Unit) (e : Exn) → IsQuiet m → IsQuiet {A = A} (m >> raise e)
  denied-IsQuiet A m e q = bind-IsQuiet m _ q λ _ s. (refl, refl)

  budget_failed-IsQuiet : (st : ExecutionState) (e : Exn) → IsQuiet (budget_failed self st e)
  budget_failed-IsQuiet st (budget_exceeded m scope) =
      denied-IsQuiet _ _ _ (log_decision-IsQuiet st deny _ _ _ _ _ _)
  budget_failed-IsQuiet st (budget_state_error m) =
      denied-IsQuiet _ _ _ (log_decision-IsQuiet st deny _ _ _ _ _ _)
  budget_failed-IsQuiet st (policy_error m) = λ s. (refl, refl)
  budget_failed-IsQuiet st (policy_error_from m e) = λ s. (refl, refl)
  budget_failed-IsQuiet st (approval_denied m) = λ s. (refl, refl)
  budget_failed-IsQuiet st (approval_error m) = λ s. (refl, refl)
  budget_failed-IsQuiet st (audit_log_error m) = λ s. (refl, refl)
  budget_failed-IsQuiet st timeout_error = λ s. (refl, refl)
  budget_failed-IsQuiet st (exception m n) = λ s. (refl, refl)
  budget_failed-IsQuiet st (base_exception m) = λ s. (refl, refl)

  pub charge_budget-IsQuiet :
      (st : ExecutionState) (b : Option (BudgetService W)) → IsQuiet (charge_budget self st b)
  charge_budget-IsQuiet st none = λ s. (refl, refl)
  charge_budget-IsQuiet st (some b) =
      attempt-IsQuiet _ _ (bind-IsQuiet _ _ (λ s. (refl, refl)) λ _. λ s. (refl, refl))
        (budget_failed-IsQuiet st)

  pub store_pending-IsQuiet :
      (st : ExecutionState) (at : ℤ) (a : Option (ApprovalService W))
      → IsQuiet (store_pending self st at a)
  store_pending-IsQuiet st at none = λ s. (refl, refl)
  store_pending-IsQuiet st at (some a) = bind-IsQuiet _ _ (λ s. (refl, refl)) λ _ s. (refl, refl)

  store_resolve-IsQuiet :
      (st : ExecutionState) (state : String) (approver : Option String)
      (a : Option (ApprovalService W))
      → IsQuiet (store_resolve self st state approver a)
  store_resolve-IsQuiet st state approver none = λ s. (refl, refl)
  store_resolve-IsQuiet st state approver (some a) = λ s. (refl, refl)

  store_fetch-IsQuiet :
      (st : ExecutionState) (a : Option (ApprovalService W)) → IsQuiet (store_fetch self st a)
  store_fetch-IsQuiet st none = λ s. (refl, refl)
  store_fetch-IsQuiet st (some a) = λ s. (refl, refl)

  pub resolve_and_fetch-IsQuiet :
      (st : ExecutionState) (state : String) (approver : Option String)
      → IsQuiet (resolve_and_fetch self st state approver)
  resolve_and_fetch-IsQuiet st state approver =
      bind-IsQuiet _ _ (store_resolve-IsQuiet st state approver self.approval_store)
        λ _. store_fetch-IsQuiet st self.approval_store

  failed-IsQuiet : (st : ExecutionState) (e : Exn) → IsQuiet (approval_process_failed self st e)
  failed-IsQuiet st e =
      if-IsQuiet (is_exception e) _ _
        (bind-IsQuiet _ _
          (bind-IsQuiet _ _ (store_resolve-IsQuiet st _ _ self.approval_store)
            λ _. log_decision-IsQuiet st deny _ _ _ _ _ _)
          λ _ s. (refl, refl))
        (λ s. (refl, refl))

  pub approval_failed-IsQuiet :
      (st : ExecutionState) (e : Exn) → IsQuiet (approval_failed self st e)
  approval_failed-IsQuiet st timeout_error =
      bind-IsQuiet _ _ (resolve_and_fetch-IsQuiet st _ _)
        λ entry. bind-IsQuiet _ _ (log_decision-IsQuiet st deny _ _ _ _ _ _) λ _ s. (refl, refl)
  approval_failed-IsQuiet st (budget_exceeded m c) = failed-IsQuiet st (budget_exceeded m c)
  approval_failed-IsQuiet st (budget_state_error m) = failed-IsQuiet st (budget_state_error m)
  approval_failed-IsQuiet st (policy_error m) = failed-IsQuiet st (policy_error m)
  approval_failed-IsQuiet st (policy_error_from m e) = failed-IsQuiet st (policy_error_from m e)
  approval_failed-IsQuiet st (approval_denied m) = failed-IsQuiet st (approval_denied m)
  approval_failed-IsQuiet st (approval_error m) = failed-IsQuiet st (approval_error m)
  approval_failed-IsQuiet st (audit_log_error m) = failed-IsQuiet st (audit_log_error m)
  approval_failed-IsQuiet st (exception m n) = failed-IsQuiet st (exception m n)
  approval_failed-IsQuiet st (base_exception m) = failed-IsQuiet st (base_exception m)

  pub policy_failed-IsQuiet : (st : ExecutionState) (e : Exn) → IsQuiet (policy_failed self st e)
  policy_failed-IsQuiet st (policy_error_from m e) =
      denied-IsQuiet _ _ _ (log_decision-IsQuiet st deny _ _ _ _ _ _)
  policy_failed-IsQuiet st (budget_exceeded m c) = λ s. (refl, refl)
  policy_failed-IsQuiet st (budget_state_error m) = λ s. (refl, refl)
  policy_failed-IsQuiet st (policy_error m) = λ s. (refl, refl)
  policy_failed-IsQuiet st (approval_denied m) = λ s. (refl, refl)
  policy_failed-IsQuiet st (approval_error m) = λ s. (refl, refl)
  policy_failed-IsQuiet st (audit_log_error m) = λ s. (refl, refl)
  policy_failed-IsQuiet st timeout_error = λ s. (refl, refl)
  policy_failed-IsQuiet st (exception m n) = λ s. (refl, refl)
  policy_failed-IsQuiet st (base_exception m) = λ s. (refl, refl)

  pub evaluate_policy-IsQuiet :
      (p : Policy W) (st : ExecutionState) → IsQuiet (evaluate_policy self p st)
  evaluate_policy-IsQuiet p st =
      attempt-IsQuiet _ _ (λ s. (refl, refl))
        λ e. if-IsQuiet (is_exception e) _ _ (λ s. (refl, refl)) (λ s. (refl, refl))

  lift-IsQuiet : {A : Type 0} (r : Result A) → IsQuiet {W = W} (lift r)
  lift-IsQuiet r s = (refl, refl)

  policy_hash_of-IsQuiet : (p : Policy W) (h : Option String) → IsQuiet (policy_hash_of self p h)
  policy_hash_of-IsQuiet p none = bind-IsQuiet _ _ (λ s. (refl, refl)) λ h s. (refl, refl)
  policy_hash_of-IsQuiet p (some h) = λ s. (refl, refl)

  pub build_state-IsQuiet :
      (action : String) (args : Items) (kwargs : Fields) (p : Policy W) (cost ttl : Option ℤ)
      → IsQuiet (build_state self action args kwargs p cost ttl)
  unfolding build_state
  build_state-IsQuiet action args kwargs p cost ttl =
      bind-IsQuiet _ _ (λ s. (refl, refl))
        λ rid.
          bind-IsQuiet _ _ (λ s. (refl, refl))
            λ a.
              bind-IsQuiet _ _ (λ s. (refl, refl))
                λ k. bind-IsQuiet _ _ (policy_hash_of-IsQuiet p _) λ h.
                  bind-IsQuiet _ _ (λ s. (refl, refl))
                    λ t. bind-IsQuiet _ _ (λ s. (refl, refl)) λ d s. (refl, refl)
