-- ===== src/Engine/Sync/Examples.antt =====
-- A synchronous engine over a table of approvals, and its theorems at concrete data.
use sudo_agent.Base.{ℕ, ◌≡◌, refl, true, false, Option, none, some, [], ◌∷◌}
use sudo_agent.Base.Int.{pos}
use sudo_agent.Base.Dict.{lookup}
use sudo_agent.Value.{null, int, str, nil, end, field}
use sudo_agent.Value.Dict.{at}
use sudo_agent.Engine.Common.{
  Decision, allow, require_approval, Result, exception, ok, err, validate_audit_entry, safe_message,
}
use sudo_agent.Engine.Services.{Policy, answer, Run, ◌>>=◌, attempt}
use sudo_agent.Engine.Build.{ExecutionState, build_state, get_policy_id}
use sudo_agent.Engine.Approval.{parse_approval_response}
use sudo_agent.Engine.Logging.{log_decision, log_outcome}
use sudo_agent.Engine.Entries.{budget_block, decision_entry, outcome_entry}
use sudo_agent.Engine.Execute.{execute_allowed, execute_with_approval}
use sudo_agent.Engine.Execute
use sudo_agent.Engine.Traces.{calls}
use sudo_agent.Engine.Adapters.{SyncBudgetManager, SyncApprovalStore}
use sudo_agent.Engine.Sync.{
  Imports, EngineOptions, SudoEngine, Thread, background, async_engine_of, init, execute,
  ttl_argument, func_kwargs, valid_agent_id,
}
use sudo_agent.Engine.Sync.Guarding.{budget_window}
use sudo_agent.Engine.Sync.Rows.{Place, OthersMove, sqlite_store, rows_order}
use sudo_agent.Engine.Sync.Bound.{IsApproved}
use sudo_agent.Engine.Sync.Approved.{CallsOnlyIf, execute_with_approval-CallsOnlyIf}
use sudo_agent.Approvals.Common.{State, approved, validate_state, validate_nonempty_str}
use sudo_agent.Approvals.Store.{Approval, Store, create_pending, resolve, fetch, expire_expired}
use sudo_agent.Approvals.Store.Lifecycle.{Evolves-refl}

abbrev fixed : Decision → Policy Store
fixed d = record {
  evaluate = λ ctx w. (ok (record { decision = d; reason = "rule"; reason_code = none }), w);
  policy_id = some "p1";
  version = null;
  policy_hash = some "ph";
  class_module = "m";
  class_qualname = "C";
  source = none;
}

abbrev imports : Imports Store
imports = record {
  uuid4 = λ w. ("r1", w);
  clock = λ w. 7;
  format_timestamp = λ t. "2026";
  sha256_hex = λ v. ok "dh";
  redact_args = λ a. ok a;
  redact_kwargs = λ k. ok k;
  str_of = λ v. "";
  interactive_approver = λ ctx result rid ttl w. (ok (answer true), w);
  jsonl_audit_logger = λ e w. (ok tt, w);
  jsonl_ledger = λ path v w. (ok tt, w);
}

abbrev table_place : Place Store
table_place = record { look = λ s. s; put = λ s w. s; look-put = λ s w. refl }

abbrev store : SyncApprovalStore Store
store = sqlite_store table_place (λ w. 7) (λ t. "2026") (pos 60)

-- Its window is a minute.
abbrev manager : SyncBudgetManager Store
manager = record {
  check = λ rid agent tool cost w. (ok tt, w);
  commit = λ rid w. (ok tt, w);
  budget_key = null;
  window_seconds = none;
  window = some 60;
  has_connect = false;
}

abbrev arguments : Decision → EngineOptions Store
arguments d = record {
  policy = some (fixed d);
  approver = none;
  logger = none;
  ledger = none;
  budget_manager = some manager;
  approval_store = some store;
  agent_id = str "bot";
  include_error_messages = true;
  max_error_length = 200;
  run_sync_mode = background;
}

abbrev engine : Decision → SudoEngine Store
engine d = record {
  async_engine = async_engine_of imports none (arguments d) (fixed d) "bot";
  run_sync_mode = background;
}

abbrev old_row : Approval
old_row = record {
  policy_hash = "ph";
  decision_hash = "dh";
  state = approved;
  approver_id = none;
  expires_at = some 5;
  created_at = 1;
  resolved_at = some 2;
}

abbrev table : Store
table = record { default_ttl_seconds = 30; max_ttl_seconds = 60; rows = ("r0", old_row) ∷ [] }

-- A thread of a script, without a loop
abbrev script : Thread
script = record { running_loop = false; is_background = false }

abbrev start : Run Store
start = record { world = table; trace = []; error_count = 0 }

abbrev func : Store → Result ℕ × Store
func w = (ok 42, w)

abbrev state : ExecutionState
state = record {
  request_id = "r1";
  action = "m.f";
  safe_args = nil;
  safe_kwargs = end;
  ctx = record { action = "m.f"; args = nil; kwargs = end; metadata = end };
  policy_id = "p1";
  policy_version = null;
  policy_hash = "ph";
  decision_time = 7;
  decision_hash = "dh";
  agent_id = "bot";
  budget_cost = pos 1;
  budget_requested = false;
  approval_ttl_seconds = pos 300;
}

makes_engine : init imports none (arguments allow) ≡ ok (engine allow)
unfolding init valid_agent_id
makes_engine = refl

budget_window_example :
    at "window_seconds" (budget_block (engine allow).async_engine state true) ≡ int (pos 3600)
budget_window_example =
    budget_window imports none (arguments allow) (engine allow) state makes_engine

others : OthersMove (rows_order table_place) (engine require_approval).async_engine
others = record {
  approve = λ ctx result rid ttl w k. Evolves-refl (lookup k w.rows);
  append = λ v w k. Evolves-refl (lookup k w.rows);
  log = λ e w k. Evolves-refl (lookup k w.rows);
  budget_manager = (
    λ rid agent tool cost w k. Evolves-refl (lookup k w.rows),
    λ rid w k. Evolves-refl (lookup k w.rows),
  );
  on_error = tt;
}

execute_with_approval-CallsOnlyIf_example :
    CallsOnlyIf
      (λ w. IsApproved "ph" "dh" (lookup "r1" w.rows))
      start
      (execute_with_approval
        (engine require_approval).async_engine
        func
        state
        (record { decision = require_approval; reason = "rule"; reason_code = none })
        none
        start)
execute_with_approval-CallsOnlyIf_example =
    execute_with_approval-CallsOnlyIf table_place (λ w. 7) (λ t. "2026")
      (engine require_approval).async_engine (pos 60) refl others state func
      (λ w k. Evolves-refl (lookup k w.rows))
      (record { decision = require_approval; reason = "rule"; reason_code = none }) none start refl

abbrev state_in : Option Approval → Option State
state_in none = none
state_in (some a) = some a.state

-- The approved call: the function has run once, and the row says approved.
approves :
    let (r, s) = execute (engine require_approval) func script "m.f" nil end none none start in
    (r ≡ ok 42) × (calls s.trace ≡ 1) × (state_in (lookup "r1" s.world.rows) ≡ some approved)
unfolding execute Execute.execute build_state get_policy_id ◌>>=◌ attempt execute_with_approval
    parse_approval_response execute_allowed log_decision log_outcome decision_entry outcome_entry
    validate_audit_entry safe_message create_pending resolve fetch expire_expired validate_state
    validate_nonempty_str
approves = (refl, refl, refl)

-- Python hands `approval_ttl_seconds` to the asynchronous engine, and the function does not get it.
takes_ttl :
    let kwargs = field "x" null (field "approval_ttl_seconds" (int (pos 9)) end) in
    (ttl_argument kwargs ≡ some (pos 9)) × (func_kwargs kwargs ≡ field "x" null end)
takes_ttl = (refl, refl)

-- In the background thread, where no loop is running, `run_sync` refuses.
refused_in_background :
    execute
      (engine require_approval)
      func
      (record { running_loop = false; is_background = true })
      "m.f"
      nil
      end
      none
      none
      start
    ≡ (
      err (exception "RuntimeError" "run_sync cannot be called from the background loop thread"),
      start,
    )
unfolding execute
refused_in_background = refl
