-- ===== src/Engine/Execute/Guarded.antt =====
-- No call without a decision: what `execute` has written when it calls the guarded function.
use sudo_agent.Base.{
  String, ◌≡◌, refl, ◌⊎◌, inl, inr, Bool, true, false, Option, none, some, List, ◌∷◌, arith, eq_iff,
  Bool-cases, is_some, ◌==◌,
}
use sudo_agent.Base.Int.{ℤ}
use sudo_agent.Base.Text.{is_blank}
use sudo_agent.Value.{Items, Fields}
use sudo_agent.Engine.Common.{
  Decision, allow, deny, require_approval, unknown, Exn, approval_denied, is_exception, Result, ok,
  err, PolicyResult, AuditEntry, truncate_error, validate_audit_entry,
}
use sudo_agent.Engine.Services.{
  Policy, Engine, Event, logged, called, Run, Eff, pure, raise, ◌>>=◌, ◌>>◌, attempt, continue,
}
use sudo_agent.Engine.Build.{ExecutionState}
use sudo_agent.Engine.Approval.{Answer, expected_binding, parse_approval_response}
use sudo_agent.Engine.Logging.{log_entry, audit_failure, log_decision, log_outcome}
use sudo_agent.Engine.Entries.{decision_entry, decision_audit}
use sudo_agent.Engine.Execute.{
  approval_info_of, run_func, execute_allowed, after_answer, execute_with_approval, decide, execute,
  effective_policy,
}
use sudo_agent.Engine.Reasons.{approved_metadata}
use sudo_agent.Engine.Traces.{
  licensed, Still, IsGuarded, CallsOf-from, IsQuiet, attempt-IsQuiet, bind-IsGuarded,
}
use sudo_agent.Engine.Execute.Quiet.{
  log_decision-IsQuiet, log_outcome-IsQuiet, charge_budget-IsQuiet, store_pending-IsQuiet,
  resolve_and_fetch-IsQuiet, approval_failed-IsQuiet, policy_failed-IsQuiet,
  evaluate_policy-IsQuiet, build_state-IsQuiet,
}

pub answer-cases :
    {W A : Type 0} (p : Result A × W)
    → ((a : A) × (w : W) × (p ≡ (ok a, w))) ⊎ ((e : Exn) × (w : W) × (p ≡ (err e, w)))
answer-cases (ok a, w) = inl (a, w, refl)
answer-cases (err e, w) = inr (e, w, refl)

-- What is written keeps all but the error's text.
pub validate-cases :
    (e : AuditEntry)
    → (validate_audit_entry e ≡ ok (record e { error = truncate_error e.error }))
      ⊎ ((x : Exn) × (is_exception x ≡ true) × (validate_audit_entry e ≡ err x))
unfolding validate_audit_entry
validate-cases e = elim (Bool-cases (is_blank e.request_id)) [
  | inl h ↦ rw h (inr (_, refl, refl))
  | inr h ↦ elim (Bool-cases (e.event == "outcome")) [
    | inr g ↦ rw (h, g) (inl refl)
    | inl g ↦ elim (Bool-cases (is_some e.outcome)) [
      | inl k ↦ rw (h, g, k) (inl refl)
      | inr k ↦ rw (h, g, k) (inr (_, refl, refl))
    ]
  ]
]

-- After a write without an error the call is licensed.
abbrev IsLicensed : Result Unit → List Event → Type 0
IsLicensed (ok _) t = licensed t ≡ true
IsLicensed (err _) t = Unit

module _ {W : Type 0} (self : Engine W) where
  failure-IsLicensed :
      (e : Exn) (s : Run W) → IsLicensed (audit_failure e s).0 (audit_failure e s).1.trace
  failure-IsLicensed e s = elim (Bool-cases (is_exception e)) [ inl h ↦ rw h tt | inr h ↦ rw h tt ]

  audit-IsLicensed :
      (e : AuditEntry) (s : Run W)
      → ((m : Option String) → licensed (logged (record e { error = m }) ∷ s.trace) ≡ true)
      → let p = attempt (log_entry self e) (λ x. audit_failure x) s in IsLicensed p.0 p.1.trace
  unfolding attempt
  audit-IsLicensed e s h = elim (validate-cases e) [
    | inr (x, _, k) ↦ rw k (failure-IsLicensed x _)
    | inl k ↦
        rw k (elim (answer-cases (self.log (record e { error = truncate_error e.error }) s.world)) [
          | inl (a, w, g) ↦ rw g (h (truncate_error e.error))
          | inr (x, w, g) ↦ rw g (failure-IsLicensed x _)
        ])
  ]

  log_decision-IsLicensed :
      (st : ExecutionState) (reason : String) (code : Option String) (extra : Option Fields)
      (checked : Bool) (info entry : Option Fields) (s : Run W)
      → let p = log_decision self st allow reason code extra checked info entry s in
        IsLicensed p.0 p.1.trace
  unfolding log_decision ◌>>=◌ attempt decision_entry
  log_decision-IsLicensed st reason code extra checked info entry s =
      elim (answer-cases
        (self.append (decision_entry self st allow reason code extra checked info entry) s.world)) [
          | inl (a, w, g) ↦ rw g (
              audit-IsLicensed (decision_audit st allow reason code extra) _
                (λ m. ground (arith, eq_iff st.request_id st.request_id)))
          | inr (x, w, g) ↦
              rw g (elim (Bool-cases (is_exception x)) [ inl h ↦ rw h tt | inr h ↦ rw h tt ])
        ]

module _ {W R : Type 0} where
  -- After the call, writing the outcome changes nothing of that.
  returned-IsGuarded :
      (r : R) (p : Result Unit × Run W) (t : List Event)
      → licensed t ≡ true
      → Still (called ∷ t) p.1.trace
      → let q = continue p (λ _ s. (ok r, s)) in IsGuarded q.0 t q.1.trace
  returned-IsGuarded r (ok u, s) t l (c, g) = (λ h. rw (g, l) h, c)
  returned-IsGuarded r (err x, s) t l (c, g) = (λ h. rw (g, l) h, omega (arith, c))

  raised-IsGuarded :
      (e : Exn) (k : R → Eff W R) (p : Result Unit × Run W) (t : List Event)
      → licensed t ≡ true
      → Still (called ∷ t) p.1.trace
      → let q = continue (continue p (λ _. raise e)) k in IsGuarded q.0 t q.1.trace
  raised-IsGuarded e k (ok u, s) t l (c, g) = (λ h. rw (g, l) h, omega (arith, c))
  raised-IsGuarded e k (err x, s) t l (c, g) = (λ h. rw (g, l) h, omega (arith, c))

module _ {W R : Type 0} (self : Engine W) (func : W → Result R × W) where
  run_func-IsGuarded :
      (st : ExecutionState) (reason : String) (code : Option String) (s : Run W)
      → licensed s.trace ≡ true
      → let p = run_func self func st reason code s in IsGuarded p.0 s.trace p.1.trace
  unfolding ◌>>=◌ attempt
  run_func-IsGuarded st reason code s l = elim (answer-cases (func s.world)) [
    | inl (r, w, g) ↦ rw g (
        returned-IsGuarded r _ s.trace l (log_outcome-IsQuiet self st reason code "success" none _))
    | inr (e, w, g) ↦ rw g (elim (Bool-cases (is_exception e)) [
      | inl h ↦ rw h (
          raised-IsGuarded e (λ r. log_outcome self st reason code "success" none >> pure r)
            (log_outcome self st reason code "error" (some e) _) s.trace l
            (log_outcome-IsQuiet self st reason code "error" (some e) _))
      | inr h ↦ rw h (λ k. rw (l, k) refl, omega arith)
    ])
  ]

  licensed_call :
      (st : ExecutionState) (reason : String) (code : Option String) (p : Result Unit × Run W)
      (t : List Event)
      → Still t p.1.trace
      → IsLicensed p.0 p.1.trace
      → let q = continue p (λ _. run_func self func st reason code) in IsGuarded q.0 t q.1.trace
  licensed_call st reason code (ok u, s) t (c, g) l = (
    λ h. (run_func-IsGuarded st reason code s l).0 (rw g h),
    CallsOf-from _ t s.trace _ c (run_func-IsGuarded st reason code s l).1,
  )
  licensed_call st reason code (err x, s) t (c, g) l = (λ h. rw g h, omega (arith, c))

  decided-IsGuarded :
      (st : ExecutionState) (reason : String) (code : Option String)
      (approved entry : Option Fields) (s : Run W)
      → let q =
          (log_decision self st allow reason code approved
                (is_some self.budget_manager)
                (approval_info_of approved)
                entry
              >> run_func self func st reason code)
            s in
        IsGuarded q.0 s.trace q.1.trace
  unfolding ◌>>=◌
  decided-IsGuarded st reason code approved entry s =
      licensed_call st reason code _ s.trace
        (log_decision-IsQuiet self st allow reason code approved _ (approval_info_of approved) entry
          s)
        (log_decision-IsLicensed self st reason code approved _ (approval_info_of approved) entry s)

  execute_allowed-IsGuarded :
      (st : ExecutionState) (reason : String) (code : Option String)
      (approved entry : Option Fields) (s : Run W)
      → let p = execute_allowed self func st reason code approved entry s in
        IsGuarded p.0 s.trace p.1.trace
  unfolding execute_allowed
  execute_allowed-IsGuarded st reason code approved entry s =
      bind-IsGuarded _ _ (charge_budget-IsQuiet self st self.budget_manager)
        (λ _ s'. decided-IsGuarded st reason code approved entry s') s

  raise-IsGuarded : (e : Exn) (t : List Event) → IsGuarded {R = R} (err e) t t
  raise-IsGuarded e t = (λ h. h, omega arith)

  denied-IsGuarded :
      (m : Eff W Unit) (e : Exn) (s : Run W)
      → IsQuiet m
      → let p = (m >> raise {A = R} e) s in IsGuarded p.0 s.trace p.1.trace
  denied-IsGuarded m e s q = bind-IsGuarded m _ q (λ _ s'. raise-IsGuarded e s'.trace) s

  after_answer-IsGuarded :
      (st : ExecutionState) (result : PolicyResult) (code : Option String) (a : Answer) (b : Bool)
      (s : Run W)
      → let p = after_answer self func st result code a b s in IsGuarded p.0 s.trace p.1.trace
  after_answer-IsGuarded st result code a true s =
      bind-IsGuarded _ _ (resolve_and_fetch-IsQuiet self st "approved" a.approver_id)
        (λ entry s'.
          execute_allowed-IsGuarded st result.reason code (some (approved_metadata a)) entry s')
        s
  after_answer-IsGuarded st result code a false s =
      bind-IsGuarded _ _ (resolve_and_fetch-IsQuiet self st "denied" a.approver_id)
        (λ entry s'.
          denied-IsGuarded _ (approval_denied result.reason) s'
            (log_decision-IsQuiet self st deny result.reason _ _ _ _ entry))
        s

  pub execute_with_approval-IsGuarded :
      (st : ExecutionState) (result : PolicyResult) (code : Option String) (s : Run W)
      → let p = execute_with_approval self func st result code s in IsGuarded p.0 s.trace p.1.trace
  unfolding execute_with_approval
  execute_with_approval-IsGuarded st result code s =
      bind-IsGuarded _ _ (λ s. (refl, refl))
        (λ t s1.
          bind-IsGuarded _ _ (store_pending-IsQuiet self st _ self.approval_store)
            (λ _ s2.
              bind-IsGuarded _ _
                (attempt-IsQuiet _ _ (λ s. (refl, refl)) (approval_failed-IsQuiet self st))
                (λ response s3.
                  after_answer-IsGuarded st result code
                    (parse_approval_response self.str_of response
                      (expected_binding st.request_id st.policy_hash st.decision_hash))
                    _ s3)
                s2)
            s1)
        s

  decide-IsGuarded :
      (st : ExecutionState) (result : PolicyResult) (d : Decision) (s : Run W)
      → let p = decide self func st result d s in IsGuarded p.0 s.trace p.1.trace
  decide-IsGuarded st result allow s = execute_allowed-IsGuarded st result.reason _ none none s
  decide-IsGuarded st result deny s =
      denied-IsGuarded _ (approval_denied result.reason) s
        (log_decision-IsQuiet self st deny _ _ _ _ _ _)
  decide-IsGuarded st result require_approval s = execute_with_approval-IsGuarded st result _ s
  decide-IsGuarded st result (unknown d) s =
      denied-IsGuarded _ _ s (log_decision-IsQuiet self st deny _ _ _ _ _ _)

  -- Whatever the policy, the services and the function do: if every call of the function so far came
  -- directly after its decision to allow was written to the ledger and to the audit log, it is so
  -- after an `execute` too; one that returns has called the function exactly once, and one that
  -- raises at most once.
  pub execute-IsGuarded :
      (action : String) (args : Items) (kwargs : Fields) (override : Option (Policy W))
      (cost ttl : Option ℤ) (s : Run W)
      → let p = execute self func action args kwargs override cost ttl s in
        IsGuarded p.0 s.trace p.1.trace
  unfolding execute
  execute-IsGuarded action args kwargs override cost ttl s =
      bind-IsGuarded _ _
        (build_state-IsQuiet self action args kwargs (effective_policy self override) cost ttl)
        (λ st s1.
          bind-IsGuarded _ _
            (attempt-IsQuiet _ _ (evaluate_policy-IsQuiet self (effective_policy self override) st)
              (policy_failed-IsQuiet self st))
            (λ result s2. decide-IsGuarded st result result.decision s2) s1)
        s
