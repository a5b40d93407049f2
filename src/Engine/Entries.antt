-- ===== src/Engine/Entries.antt =====
-- async_engine.py, the entries that `_log_decision` and `_log_outcome` write.
use sudo_agent.Base.{
  ℕ, zero, suc, String, Bool, true, false, Option, none, some, [], ◌∷◌, ◌||◌, ◌==◌, if◌then◌else◌,
  or_else,
}
use sudo_agent.Base.Int.{pos}
use sudo_agent.Value.{
  Value, null, bool, int, str, list, dict, Fields, end, field, fields, opt_str, truthy, or_value,
}
use sudo_agent.Value.Dict.{get, set, update}
use sudo_agent.Engine.Common.{Decision, allow, effect, AuditEntry}
use sudo_agent.Engine.Services.{BudgetService, Engine}
use sudo_agent.Engine.Build.{ExecutionState}

-- A dict or `None`: `d.get(k) if d else None`
abbrev pub get_in : String → Option Fields → Value
get_in k none = null
get_in k (some d) = get k d

abbrev pub some_dict : Option Fields → Bool
some_dict none = false
some_dict (some end) = false
some_dict (some (field _ _ _)) = true

abbrev pub or_empty : Option Fields → Fields
or_empty none = end
or_empty (some d) = d

abbrev pub with_reason_code : Option String → Fields → Fields
with_reason_code none d = d
with_reason_code (some code) d = if code == "" then d else set "reason_code" (str code) d

-- `ledger_metadata`
abbrev pub ledger_metadata : Option Fields → Option String → Fields
ledger_metadata extra reason_code = with_reason_code reason_code (update end (or_empty extra))

-- `window_seconds or DEFAULT_BUDGET_WINDOW_SECONDS`
abbrev pub window_or_default : Option ℕ → ℕ
window_or_default none = 3600
window_or_default (some zero) = 3600
window_or_default (some (suc n)) = suc n

abbrev pub window_of : {W : Type 0} → Option (BudgetService W) → Option ℕ
window_of none = none
window_of (some b) = or_else b.window_seconds b.window

abbrev pub budget_key_of : {W : Type 0} → Option (BudgetService W) → Value
budget_key_of none = null
budget_key_of (some b) = b.budget_key

abbrev pub approval_id_of : String → Option Fields → Option Fields → Value
approval_id_of request_id info entry =
    first (or_value (get_in "approval_id" entry) (get_in "request_id" entry)) info
  where
    last : Value → Option Fields → Value
    last null (some d) = str request_id
    last v info = v

    first : Value → Option Fields → Value
    first null (some d) = last (get "approval_id" d) (some d)
    first v info = v

abbrev pub state_of : Option Fields → Option Fields → Value
state_of info entry =
    if some_dict entry
    then get_in "state" entry
    else or_value (get_in "state" info)
        (if truthy (get_in "approved" info) then str "approved" else str "denied")

-- The `approval` block of a decision.
abbrev pub approval_block : String → Option Fields → Option Fields → Value
approval_block request_id none none = null
approval_block request_id info entry = dict (
    fields (
      ("approval_id", approval_id_of request_id info entry)
      ∷ ("approver_id", or_value (get_in "approver_id" entry) (get_in "approver_id" info))
      ∷ ("state", state_of info entry)
      ∷ ("created_at", get_in "created_at" entry)
      ∷ ("resolved_at", get_in "resolved_at" entry)
      ∷ ("expires_at", get_in "expires_at" entry)
      ∷ ("binding", get_in "approval_binding" info)
      ∷ []))

-- `{"args": …, "kwargs": …}`
abbrev pub parameters : ExecutionState → Fields
parameters st = fields (("args", list st.safe_args) ∷ ("kwargs", dict st.safe_kwargs) ∷ [])

-- The `AuditEntry` of a decision, and of an outcome
abbrev pub decision_audit :
    ExecutionState → Decision → String → Option String → Option Fields → AuditEntry
decision_audit st decision reason reason_code extra = record {
  timestamp = st.decision_time;
  request_id = st.request_id;
  event = "decision";
  action = st.action;
  decision = decision;
  reason = reason;
  outcome = none;
  error_type = none;
  error = none;
  metadata = update (parameters st) (ledger_metadata extra reason_code);
}

abbrev pub outcome_audit :
    ExecutionState → String → String → Option String → Option String → ℕ → AuditEntry
outcome_audit st reason outcome error_type error_msg at = record {
  timestamp = at;
  request_id = st.request_id;
  event = "outcome";
  action = st.action;
  decision = allow;
  reason = reason;
  outcome = some outcome;
  error_type = error_type;
  error = error_msg;
  metadata = end;
}

module _ {W : Type 0} (self : Engine W) where
  abbrev pub budget_block : ExecutionState → Bool → Value
  budget_block st budget_checked =
      if budget_checked || st.budget_requested
      then dict (
          fields (
            ("budget_key", budget_key_of self.budget_manager)
            ∷ ("agent_id", str st.agent_id)
            ∷ ("action", str st.action)
            ∷ ("cost", int st.budget_cost)
            ∷ ("window_seconds", int (pos (window_or_default (window_of self.budget_manager))))
            ∷ ("checked", bool budget_checked)
            ∷ []))
      else null

  -- The `LedgerDecisionEntry` of `_log_decision`
  unfoldable pub decision_entry :
      ExecutionState
      → Decision
      → String
      → Option String
      → Option Fields
      → Bool
      → Option Fields
      → Option Fields
      → Value
  decision_entry st decision reason reason_code extra budget_checked info entry = dict (
      fields (
        ("schema_version", str "2.0")
        ∷ ("ledger_version", str "2.0")
        ∷ ("prev_entry_hash", null)
        ∷ ("entry_hash", null)
        ∷ ("request_id", str st.request_id)
        ∷ ("created_at", str (self.format_timestamp st.decision_time))
        ∷ ("event", str "decision")
        ∷ ("action", str st.action)
        ∷ ("agent_id", str st.agent_id)
        ∷ (
          "decision",
          dict (
              fields (
                ("effect", str (effect decision))
                ∷ ("reason", str reason)
                ∷ ("reason_code", opt_str reason_code)
                ∷ ("policy_id", str st.policy_id)
                ∷ ("policy_version", st.policy_version)
                ∷ ("policy_hash", str st.policy_hash)
                ∷ ("decision_hash", str st.decision_hash)
                ∷ [])),
        )
        ∷ ("approval", approval_block st.request_id info entry)
        ∷ ("budget", budget_block st budget_checked)
        ∷ ("parameters", dict (parameters st))
        ∷ ("metadata", dict (ledger_metadata extra reason_code))
        ∷ []))

  -- The `LedgerOutcomeEntry` of `_log_outcome`
  unfoldable pub outcome_entry :
      ExecutionState → String → Option String → String → Option String → Option String → ℕ → Value
  outcome_entry st reason reason_code outcome error_type error_msg at = dict (
      fields (
        ("schema_version", str "2.0")
        ∷ ("ledger_version", str "2.0")
        ∷ ("prev_entry_hash", null)
        ∷ ("entry_hash", null)
        ∷ ("request_id", str st.request_id)
        ∷ ("created_at", str (self.format_timestamp at))
        ∷ ("event", str "outcome")
        ∷ ("action", str st.action)
        ∷ ("agent_id", str st.agent_id)
        ∷ (
          "decision",
          dict (
              fields (
                ("decision_hash", str st.decision_hash)
                ∷ ("policy_id", str st.policy_id)
                ∷ ("policy_version", st.policy_version)
                ∷ ("policy_hash", str st.policy_hash)
                ∷ ("reason", str reason)
                ∷ ("reason_code", opt_str reason_code)
                ∷ [])),
        )
        ∷ (
          "outcome",
          dict (
              fields (
                ("status", str outcome)
                ∷ ("reason", str reason)
                ∷ ("reason_code", opt_str reason_code)
                ∷ ("error_type", opt_str error_type)
                ∷ ("error", opt_str error_msg)
                ∷ [])),
        )
        ∷ ("parameters", dict (parameters st))
        ∷ []))
