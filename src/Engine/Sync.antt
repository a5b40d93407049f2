-- ===== src/Engine/Sync.antt =====
-- engine.py, `class SudoEngine`: the synchronous engine over the asynchronous one, with the
-- constructor of async_engine.py and `run_sync` of async_utils.py.
pub mod Guarding
pub mod Rows
pub mod Bound
pub mod Approved
mod Examples
use sudo_agent.Base.{ℕ, String, Bool, true, false, Option, none, some, ◌==◌, if◌then◌else◌}
use sudo_agent.Base.Int.{ℤ, pos}
use sudo_agent.Base.Text.{is_blank}
use sudo_agent.Value.{Value, bool, int, str, Items, Fields}
use sudo_agent.Value.Dict.{get, pop}
use sudo_agent.Engine.Common.{Exn, exception, Result, ok, err, Context, PolicyResult, AuditEntry}
use sudo_agent.Engine.Services.{Policy, Response, Service, Engine, Run, Eff, raise}
use sudo_agent.Engine.Adapters.{
  SyncApprovalStore, SyncBudgetManager, adapt_append, adapt_log, adapt_approve, adapt_store,
  adapt_budget,
}
use sudo_agent.Engine.Execute

abbrev value_error : String → Exn
value_error m = exception "ValueError" m

pub data RunSyncMode : Type 0 where
  background isolated : RunSyncMode

-- What the engine imports, with the constructors of the services that it makes itself: the approver
-- at the terminal (under `asyncio.wait_for`), the audit logger and the ledger file at a path.
pub record Imports (W : Type 0) : Type 0 where
  pub uuid4 : W → String × W
  pub clock : W → ℕ
  pub format_timestamp : ℕ → String
  pub sha256_hex : Value → Result String
  pub redact_args : Items → Result Items
  pub redact_kwargs : Fields → Result Fields
  pub str_of : Value → String
  pub interactive_approver : Context → PolicyResult → String → ℤ → Service W Response
  pub jsonl_audit_logger : AuditEntry → Service W Unit
  pub jsonl_ledger : String → Value → Service W Unit

-- The constructor's arguments; `none` is `None`.
pub record EngineOptions (W : Type 0) : Type 0 where
  pub policy : Option (Policy W)
  pub approver : Option (Context → PolicyResult → String → ℤ → Service W Response)
  pub logger : Option (AuditEntry → Service W Unit)
  pub ledger : Option (Value → Service W Unit)
  pub budget_manager : Option (SyncBudgetManager W)
  pub approval_store : Option (SyncApprovalStore W)
  pub agent_id : Value
  pub include_error_messages : Bool
  pub max_error_length : ℕ
  pub run_sync_mode : RunSyncMode

pub record SudoEngine (W : Type 0) : Type 0 where
  pub async_engine : Engine W
  pub run_sync_mode : RunSyncMode

abbrev pub given_or : {A : Type 0} → Option A → A → A
given_or none a = a
given_or (some b) a = b

abbrev pub adapted : {A B : Type 0} → (A → B) → Option A → Option B
adapted adapt none = none
adapted adapt (some a) = some (adapt a)

-- `agent_id`, if it is a text that is not blank
abbrev pub valid_agent_id : Value → Result String
unfolding is_blank
valid_agent_id (str s) =
    if is_blank s then err (value_error "agent_id must be a non-empty string") else ok s
valid_agent_id v = err (value_error "agent_id must be a non-empty string")

-- The path in `SUDOAGENT_LEDGER_PATH`, if it is set and not empty
abbrev pub env_path : Option String → Option String
env_path none = none
env_path (some path) = if path == "" then none else some path

module _ {W : Type 0} (imports : Imports W) where
  abbrev pub ledger_at : Option String → Value → Service W Unit
  ledger_at none = imports.jsonl_ledger "sudo_ledger.jsonl"
  ledger_at (some path) = imports.jsonl_ledger path

  -- `AsyncSudoEngine(…)`, whose own checks the arguments have passed.
  abbrev pub async_engine_of : Option String → EngineOptions W → Policy W → String → Engine W
  async_engine_of env a policy agent_id = record {
    policy = policy;
    approve = adapt_approve (given_or a.approver imports.interactive_approver);
    append = adapt_append (given_or a.ledger (ledger_at (env_path env)));
    log = adapt_log (given_or a.logger imports.jsonl_audit_logger);
    budget_manager = adapted adapt_budget a.budget_manager;
    approval_store = adapted adapt_store a.approval_store;
    agent_id = agent_id;
    on_error = none;
    include_error_messages = a.include_error_messages;
    max_error_length = a.max_error_length;
    uuid4 = imports.uuid4;
    clock = imports.clock;
    format_timestamp = imports.format_timestamp;
    sha256_hex = imports.sha256_hex;
    redact_args = imports.redact_args;
    redact_kwargs = imports.redact_kwargs;
    str_of = imports.str_of;
  }

  abbrev pub init_with :
      Option String → EngineOptions W → Policy W → Result String → Result (SudoEngine W)
  init_with env a policy (err e) = err e
  init_with env a policy (ok agent_id) = ok (record {
    async_engine = async_engine_of env a policy agent_id;
    run_sync_mode = a.run_sync_mode;
  })

  abbrev pub init_policy :
      Option String → EngineOptions W → Option (Policy W) → Result (SudoEngine W)
  init_policy env a none = err (
      value_error
        "policy is required (pass AllowAllPolicy() explicitly if you want permissive mode)")
  init_policy env a (some policy) = init_with env a policy (valid_agent_id a.agent_id)

  -- `SudoEngine.__init__`, with the environment's `SUDOAGENT_LEDGER_PATH`
  unfoldable pub init : Option String → EngineOptions W → Result (SudoEngine W)
  init env a = init_policy env a a.policy

  abbrev pub from_path : Option String → Option String → EngineOptions W → Result (SudoEngine W)
  from_path env none a = err (value_error "SUDOAGENT_LEDGER_PATH is not set")
  from_path env (some path) a = init env (record a { ledger = some (imports.jsonl_ledger path) })

  -- `SudoEngine.from_env`, which takes no ledger
  unfoldable pub from_env : Option String → EngineOptions W → Result (SudoEngine W)
  unfolding init
  from_env env a = from_path env (env_path env) a

-- The thread that a call is made from: whether an event loop is running in it, and whether it is the
-- one that `_ensure_background_loop` has started.
pub record Thread : Type 0 where
  pub running_loop : Bool
  pub is_background : Bool

abbrev runtime_error : String → Exn
runtime_error m = exception "RuntimeError" m

-- `run_sync`; the background loop waits for the call and hands on what it returns or raises.
abbrev pub run_sync : {W A : Type 0} → Thread → Eff W A → Eff W A
run_sync thread call =
    if thread.running_loop
    then raise (runtime_error "run_sync cannot be called from within an async event loop")
    else if thread.is_background
    then raise (runtime_error "run_sync cannot be called from the background loop thread")
    else call

-- `asyncio.run`, which refuses a thread with a running loop
abbrev pub asyncio_run : {W A : Type 0} → Thread → Eff W A → Eff W A
asyncio_run thread call =
    if thread.running_loop
    then raise (runtime_error "asyncio.run() cannot be called from a running event loop")
    else call

abbrev pub run_mode : {W A : Type 0} → RunSyncMode → Thread → Eff W A → Eff W A
run_mode isolated thread call = asyncio_run thread call
run_mode background thread call = run_sync thread call

-- What `AsyncSudoEngine.execute` finds in `**kwargs` for its own parameter `approval_ttl_seconds`,
-- which is an `int` (a `bool` is one) or `None`; the parameter's type rules out the other values.
abbrev pub ttl_value : Value → Option ℤ
ttl_value (int n) = some n
ttl_value (bool true) = some (pos 1)
ttl_value (bool false) = some (pos 0)
ttl_value v = none

abbrev pub ttl_argument : Fields → Option ℤ
ttl_argument kwargs = ttl_value (get "approval_ttl_seconds" kwargs)

-- The keyword arguments that are left for the function
abbrev pub func_kwargs : Fields → Fields
func_kwargs kwargs = pop "approval_ttl_seconds" kwargs

module _ {W A : Type 0} (self : SudoEngine W) (func : Service W A) where
  -- `execute`, called in a thread
  unfoldable pub execute : Thread → String → Items → Fields → Option (Policy W) → Option ℤ → Eff W A
  execute thread action args kwargs policy_override budget_cost =
      if thread.running_loop
      then raise (
          runtime_error
            "SudoEngine.execute() cannot be called from within an async event loop. Use AsyncSudoEngine instead: await engine.execute(...)")
      else run_mode self.run_sync_mode thread (
          Execute.execute self.async_engine func action args (func_kwargs kwargs) policy_override
            budget_cost (ttl_argument kwargs))

  -- A call of the function that `guard` makes
  unfoldable pub guard : Option (Policy W) → Option ℤ → Thread → String → Items → Fields → Eff W A
  unfolding execute
  guard policy budget_cost thread action args kwargs =
      execute thread action args kwargs policy budget_cost
