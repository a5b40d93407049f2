-- ===== src/Engine/Logging.antt =====
-- async_engine.py, `_log_decision` and `_log_outcome`: the writes, and what their failure does.
use sudo_agent.Base.{◌+◌, String, Bool, Option, none, some, ◌∷◌, if◌then◌else◌}
use sudo_agent.Value.{Value, Fields}
use sudo_agent.Engine.Common.{
  Decision, Exn, audit_log_error, is_exception, type_name, Result, ok, err, AuditEntry,
  validate_audit_entry, safe_message,
}
use sudo_agent.Engine.Services.{
  Engine, Event, appended, append_failed, logged, log_failed, service, Run, Eff, pure, raise, await,
  now, ◌>>=◌, ◌>>◌, attempt,
}
use sudo_agent.Engine.Build.{ExecutionState}
use sudo_agent.Engine.Entries.{decision_entry, decision_audit, outcome_entry, outcome_audit}

-- A write of the decision that fails is an `AuditLogError`.
abbrev pub audit_failure : Exn → {W : Type 0} → Eff W Unit
audit_failure e =
    if is_exception e then raise (audit_log_error "Failed to write audit log") else raise e

-- What a write returns, and whether it is in the trace as done or as failed.
abbrev pub noted : {W A : Type 0} → Result A × W → Event → Event → Run W → Result A × Run W
noted (ok a, w) good bad s = (ok a, record s { world = w; trace = good ∷ s.trace })
noted (err e, w) good bad s = (err e, record s { world = w; trace = bad ∷ s.trace })

module _ {W : Type 0} (self : Engine W) where
  -- `await self._ledger.append(entry)`
  abbrev pub append_entry : Value → Eff W Unit
  append_entry v s = noted (self.append v s.world) (appended v) append_failed s

  -- `await self._logger.log(AuditEntry(…))`
  abbrev pub log_valid : AuditEntry → Eff W Unit
  log_valid e s = noted (self.log e s.world) (logged e) log_failed s

  -- An entry that does not pass its validators is not written.
  abbrev pub log_checked : Result AuditEntry → Eff W Unit
  log_checked (ok e) s = log_valid e s
  log_checked (err x) s = noted (err x, s.world) log_failed log_failed s

  abbrev pub log_entry : AuditEntry → Eff W Unit
  log_entry e = log_checked (validate_audit_entry e)

  -- `_log_decision`
  unfoldable pub log_decision :
      ExecutionState
      → Decision
      → String
      → Option String
      → Option Fields
      → Bool
      → Option Fields
      → Option Fields
      → Eff W Unit
  log_decision st decision reason reason_code extra budget_checked info entry =
      attempt
        (append_entry
          (decision_entry self st decision reason reason_code extra budget_checked info entry))
        (λ e. audit_failure e)
      >> attempt (log_entry (decision_audit st decision reason reason_code extra))
          (λ e. audit_failure e)

  -- The hook `_on_error`, whose own failure is dropped.
  abbrev pub run_hook : String → Exn → Option (String → Exn → W → Result Unit × W) → Eff W Unit
  run_hook event e none = pure tt
  run_hook event e (some hook) =
      attempt (await (service "on_error") (hook event e))
        (λ e'. if is_exception e' then pure tt else raise e')

  -- A write of the outcome that fails is counted and reported.
  abbrev pub count_failure : String → Exn → Eff W Unit
  count_failure event e s =
      if is_exception e
      then run_hook event e self.on_error (record s { error_count = s.error_count + 1 })
      else (err e, s)

  abbrev pub error_text : Option Exn → Option String
  error_text none = none
  error_text (some e) = some (safe_message e self.include_error_messages self.max_error_length)

  abbrev pub error_name : Option Exn → Option String
  error_name none = none
  error_name (some e) = some (type_name e)

  -- `_log_outcome`
  unfoldable pub log_outcome :
      ExecutionState → String → Option String → String → Option Exn → Eff W Unit
  log_outcome st reason reason_code outcome error = do
    created ← now self.clock
    attempt
        (append_entry (
          outcome_entry self st reason reason_code outcome (error_name error) (error_text error)
            created))
        (count_failure "outcome_ledger_write")
    at ← now self.clock
    attempt (log_entry (outcome_audit st reason outcome (error_name error) (error_text error) at))
        (count_failure "outcome_audit_write")
