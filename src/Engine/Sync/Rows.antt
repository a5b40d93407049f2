-- ===== src/Engine/Sync/Rows.antt =====
-- engine.py with approvals_store.py: a `SQLiteApprovalStore` behind the adapter, as the approval store
-- of an engine, and what the steps of the engine may do to its rows.
use sudo_agent.Base.{ℕ, String, ◌≡◌, Option, none, some, [], ◌∷◌}
use sudo_agent.Base.Int.{ℤ, pos, negsuc}
use sudo_agent.Base.Dict.{lookup}
use sudo_agent.Value.{Value, null, str, Fields, fields, opt_str}
use sudo_agent.Engine.Common.{Exn, exception, Result, ok, err, Context, PolicyResult, AuditEntry}
use sudo_agent.Engine.Services.{Service, Engine}
use sudo_agent.Engine.Execute.Stepwise.{
  Preorder, Moves, BudgetMoves, StoreMoves, HookMoves, EngineMoves,
}
use sudo_agent.Engine.Adapters.{SyncApprovalStore, adapt_store}
use sudo_agent.Approvals.Common.{State, state_name, Error, value_error, runtime_error}
use sudo_agent.Approvals.Common
use sudo_agent.Approvals.Store.{
  Approval, Store, Action, create_pending, resolve, fetch, expire_expired,
}
use sudo_agent.Approvals.Store.Lifecycle.{
  Evolves, Evolves-refl, Evolves-trans, create_pending-Keeps, resolve-Keeps, fetch-Keeps,
  expire_expired-Evolves, Keeps,
}

-- Where the store's table is in the world
pub record Place (W : Type 0) : Type 0 where
  pub look : W → Store
  pub put : Store → W → W
  pub look-put : (s : Store) (w : W) → look (put s w) ≡ s

abbrev pub raised_by : Error → Exn
raised_by (value_error m) = exception "ValueError" m
raised_by (runtime_error m) = exception "RuntimeError" m

abbrev pub outcome : {A B : Type 0} → (A → B) → Common.Result A → Result B
outcome f (Common.ok a) = ok (f a)
outcome f (Common.err e) = err (raised_by e)

-- `dict(row)`
abbrev pub optional_time : (ℕ → String) → Option ℕ → Value
optional_time isoformat none = null
optional_time isoformat (some t) = str (isoformat t)

abbrev pub row_fields : (ℕ → String) → String → Approval → Fields
row_fields isoformat request_id a = fields (
    ("request_id", str request_id)
    ∷ ("policy_hash", str a.policy_hash)
    ∷ ("decision_hash", str a.decision_hash)
    ∷ ("state", str (state_name a.state))
    ∷ ("approver_id", opt_str a.approver_id)
    ∷ ("expires_at", optional_time isoformat a.expires_at)
    ∷ ("created_at", str (isoformat a.created_at))
    ∷ ("resolved_at", optional_time isoformat a.resolved_at)
    ∷ [])

abbrev pub row_or_none : (ℕ → String) → String → Option Approval → Option Fields
row_or_none isoformat request_id none = none
row_or_none isoformat request_id (some a) = some (row_fields isoformat request_id a)

module _ {W : Type 0} (place : Place W) (clock : W → ℕ) (isoformat : ℕ → String) where
  -- A call of the store, as a service
  abbrev pub on_store : {A B : Type 0} → (A → B) → (ℕ → Action A) → Service W B
  on_store f action w = let (r, s) = action (clock w) (place.look w) in (outcome f r, place.put s w)

  abbrev pub ignore : {A : Type 0} → A → Unit {0}
  ignore a = tt

  -- An instant before the first one of the calendar cannot be made.
  abbrev pub create_at : String → String → String → ℤ → Service W Unit
  create_at request_id policy_hash decision_hash (pos t) w =
      on_store ignore (create_pending request_id policy_hash decision_hash (some t)) w
  create_at request_id policy_hash decision_hash (negsuc n) w =
      (err (exception "OverflowError" "date value out of range"), w)

  -- The store that `SyncApprovalStoreAdapter` is given; the clock stands still during a call.
  abbrev pub sqlite_store : ℤ → SyncApprovalStore W
  sqlite_store max_ttl_seconds = record {
    max_ttl_seconds = some max_ttl_seconds;
    expire_expired = some (on_store ignore expire_expired);
    create_pending = create_at;
    resolve =
        λ request_id state approver_id. on_store ignore (resolve request_id state approver_id none);
    fetch = some (λ request_id.
        on_store (row_or_none isoformat request_id) (λ now. fetch request_id now now));
  }

-- What the other services may do to the table: let its rows evolve.
abbrev pub rows_order : {W : Type 0} → Place W → Preorder W
rows_order place = record {
  relates =
      λ u v. (k : String) → Evolves (lookup k (place.look u).rows) (lookup k (place.look v).rows);
  relates-refl = λ w k. Evolves-refl (lookup k (place.look w).rows);
  relates-trans = λ u v w h g k.
      Evolves-trans (lookup k (place.look u).rows) (lookup k (place.look v).rows)
        (lookup k (place.look w).rows) (h k) (g k);
}

pub record OthersMove {W : Type 0} (o : Preorder W) (e : Engine W) : Type 0 where
  pub approve :
      (ctx : Context) (result : PolicyResult) (request_id : String) (timeout : ℤ)
      → Moves o (e.approve ctx result request_id timeout)
  pub append : (v : Value) → Moves o (e.append v)
  pub log : (entry : AuditEntry) → Moves o (e.log entry)
  pub budget_manager : BudgetMoves o e.budget_manager
  pub on_error : HookMoves o e.on_error

module _ {W : Type 0} (place : Place W) (clock : W → ℕ) (isoformat : ℕ → String) where
  on_store-Moves :
      {A B : Type 0} (f : A → B) (action : ℕ → Action A)
      → ((now : ℕ) → Keeps (action now))
      → Moves (rows_order place) (on_store place clock isoformat f action)
  on_store-Moves f action keeps w k = rw place.look-put (keeps (clock w) k (place.look w))

  create_at-Moves :
      (request_id policy_hash decision_hash : String) (at : ℤ)
      → Moves
          (rows_order place)
          (create_at place clock isoformat request_id policy_hash decision_hash at)
  create_at-Moves request_id policy_hash decision_hash (pos t) w =
      on_store-Moves (ignore place clock isoformat)
        (create_pending request_id policy_hash decision_hash (some t))
        (λ now. create_pending-Keeps request_id policy_hash decision_hash (some t) now) w
  create_at-Moves request_id policy_hash decision_hash (negsuc n) w =
      λ k. Evolves-refl (lookup k (place.look w).rows)

  sqlite_store-Moves :
      (max_ttl_seconds : ℤ)
      → StoreMoves
          (rows_order place)
          (some (adapt_store (sqlite_store place clock isoformat max_ttl_seconds)))
  sqlite_store-Moves max_ttl_seconds = (
    on_store-Moves (ignore place clock isoformat) expire_expired
        (λ now k s. expire_expired-Evolves k s now),
    create_at-Moves,
    λ request_id state approver_id.
        on_store-Moves (ignore place clock isoformat) (resolve request_id state approver_id none)
          (λ now. resolve-Keeps request_id state approver_id none now),
    λ request_id.
        on_store-Moves (row_or_none isoformat request_id) (λ now. fetch request_id now now)
          (λ now. fetch-Keeps request_id now now),
  )

  pub engine-Moves :
      (e : Engine W) (max_ttl_seconds : ℤ)
      → e.approval_store ≡ some (adapt_store (sqlite_store place clock isoformat max_ttl_seconds))
      → OthersMove (rows_order place) e
      → EngineMoves (rows_order place) e
  engine-Moves e max_ttl_seconds store others = record {
    approve = others.approve;
    append = others.append;
    log = others.log;
    budget_manager = others.budget_manager;
    approval_store = rw store (sqlite_store-Moves max_ttl_seconds);
    on_error = others.on_error;
  }
