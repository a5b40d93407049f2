-- ===== src/Engine/Adapters.antt =====
-- adapters/sync_to_async.py: services that are called on another thread. `asyncio.to_thread` gives back
-- what the call returns or raises, and the engine waits for it, so that the call is one step.
use sudo_agent.Base.{ℕ, String, Bool, Option, none, some, if◌then◌else◌}
use sudo_agent.Base.Int.{ℤ}
use sudo_agent.Value.{Value, null, Fields}
use sudo_agent.Engine.Common.{ok, Context, PolicyResult, AuditEntry}
use sudo_agent.Engine.Services.{Service, Response, BudgetService, ApprovalService}

abbrev pub to_thread : {W A : Type 0} → Service W A → Service W A
to_thread call = call

-- A synchronous approval store; two of its methods may be missing.
pub record SyncApprovalStore (W : Type 0) : Type 0 where
  pub max_ttl_seconds : Option ℤ
  pub expire_expired : Option (Service W Unit)
  pub create_pending : String → String → String → ℤ → Service W Unit
  pub resolve : String → String → Option String → Service W Unit
  pub fetch : Option (String → Service W (Option Fields))

-- A synchronous budget manager, and whether it has the attribute `_connect`
pub record SyncBudgetManager (W : Type 0) : Type 0 where
  pub check : String → String → String → ℤ → Service W Unit
  pub commit : String → Service W Unit
  pub budget_key : Value
  pub window_seconds : Option ℕ
  pub window : Option ℕ
  pub has_connect : Bool

module _ {W : Type 0} where
  -- `SyncLedgerAdapter.append`, `SyncAuditLoggerAdapter.log` and `SyncApproverAdapter.approve`
  abbrev pub adapt_append : (Value → Service W Unit) → Value → Service W Unit
  adapt_append append entry = to_thread (append entry)

  abbrev pub adapt_log : (AuditEntry → Service W Unit) → AuditEntry → Service W Unit
  adapt_log log entry = to_thread (log entry)

  abbrev pub adapt_approve :
      (Context → PolicyResult → String → ℤ → Service W Response)
      → Context
      → PolicyResult
      → String
      → ℤ
      → Service W Response
  adapt_approve approve ctx result request_id timeout =
      to_thread (approve ctx result request_id timeout)

  abbrev pub adapt_expire : Option (Service W Unit) → Service W Unit
  adapt_expire none w = (ok tt, w)
  adapt_expire (some expire_expired) w = to_thread expire_expired w

  abbrev pub adapt_fetch :
      Option (String → Service W (Option Fields)) → String → Service W (Option Fields)
  adapt_fetch none request_id w = (ok none, w)
  adapt_fetch (some fetch) request_id w = to_thread (fetch request_id) w

  -- `SyncApprovalStoreAdapter`: it has no attribute `max_ttl_seconds`.
  abbrev pub adapt_store : SyncApprovalStore W → ApprovalService W
  adapt_store store = record {
    max_ttl_seconds = none;
    expire_expired = adapt_expire store.expire_expired;
    create_pending = λ request_id policy_hash decision_hash expires_at.
        to_thread (store.create_pending request_id policy_hash decision_hash expires_at);
    resolve =
        λ request_id state approver_id. to_thread (store.resolve request_id state approver_id);
    fetch = adapt_fetch store.fetch;
  }

  abbrev pub threaded_if : {A : Type 0} → Bool → Service W A → Service W A
  threaded_if has_connect call = if has_connect then to_thread call else call

  -- `SyncBudgetManagerAdapter`: it has no attributes `budget_key`, `window_seconds` and `window`.
  abbrev pub adapt_budget : SyncBudgetManager W → BudgetService W
  adapt_budget manager = record {
    check = λ request_id agent tool cost.
        threaded_if manager.has_connect (manager.check request_id agent tool cost);
    commit = λ request_id. threaded_if manager.has_connect (manager.commit request_id);
    budget_key = null;
    window_seconds = none;
    window = none;
  }
