-- ===== src/Engine/Execute/Stepwise.antt =====
-- Each step of the engine goes through the services: along what they move, it moves.
pub mod Parts
pub mod Whole
use sudo_agent.Base.{
  ℕ, String, ◌≡◌, refl, Bool, true, false, Option, none, some, Bool-cases, inl, inr, if◌then◌else◌,
}
use sudo_agent.Base.Int.{ℤ}
use sudo_agent.Value.{Value, Items, Fields}
use sudo_agent.Engine.Common.{
  Decision, allow, deny, require_approval, unknown, Exn, is_exception, Result, ok, err, AuditEntry,
  budget_exceeded, budget_state_error, policy_error, policy_error_from, approval_denied,
  approval_error, audit_log_error, timeout_error, exception, base_exception, Context, PolicyResult,
}
use sudo_agent.Engine.Services.{
  Policy, BudgetService, ApprovalService, Engine, Service, Event, Run, Eff, raise, lift, ◌>>=◌,
  ◌>>◌, attempt, continue, handled, pure, await, now, called,
}
use sudo_agent.Engine.Build.{ExecutionState, build_state, policy_hash_of, request_id_of}
use sudo_agent.Engine.Approval.{Answer, expected_binding, parse_approval_response}
use sudo_agent.Engine.Logging.{
  noted, append_entry, log_checked, audit_failure, log_decision, run_hook, count_failure,
  log_outcome,
}
use sudo_agent.Engine.Execute.{
  evaluate_policy, budget_failed, charge_budget, store_pending, store_resolve, store_fetch,
  resolve_and_fetch, approval_failed, approval_process_failed, policy_failed, call_failed, run_func,
  execute_allowed, after_answer, execute_with_approval, decide, execute, effective_policy,
}

-- A relation between worlds that is reflexive and transitive
pub record Preorder (W : Type 0) : Type 1 where
  pub relates : W → W → Type 0
  pub relates-refl : (w : W) → relates w w
  pub relates-trans : (u v w : W) → relates u v → relates v w → relates u w

-- What moves along it
module _ {W : Type 0} (o : Preorder W) where
  abbrev pub Moves : {A : Type 0} → Service W A → Type 0
  Moves op = (w : W) → o.relates w (op w).1

  abbrev pub BudgetMoves : Option (BudgetService W) → Type 0
  BudgetMoves none = Unit
  BudgetMoves (some b) =
      ((request_id agent tool : String) (cost : ℤ) → Moves (b.check request_id agent tool cost))
      × ((request_id : String) → Moves (b.commit request_id))

  abbrev pub StoreMoves : Option (ApprovalService W) → Type 0
  StoreMoves none = Unit
  StoreMoves (some a) =
      Moves a.expire_expired
      × ((request_id policy_hash decision_hash : String) (at : ℤ)
          → Moves (a.create_pending request_id policy_hash decision_hash at))
      × ((request_id state : String) (approver_id : Option String)
          → Moves (a.resolve request_id state approver_id))
      × ((request_id : String) → Moves (a.fetch request_id))

  abbrev pub HookMoves : Option (String → Exn → Service W Unit) → Type 0
  HookMoves none = Unit
  HookMoves (some hook) = (event : String) (e : Exn) → Moves (hook event e)

  -- The services of the approval path move along the relation.
  pub record EngineMoves (self : Engine W) : Type 0 where
    pub approve :
        (ctx : Context) (result : PolicyResult) (request_id : String) (timeout : ℤ)
        → Moves (self.approve ctx result request_id timeout)
    pub append : (v : Value) → Moves (self.append v)
    pub log : (e : AuditEntry) → Moves (self.log e)
    pub budget_manager : BudgetMoves self.budget_manager
    pub approval_store : StoreMoves self.approval_store
    pub on_error : HookMoves self.on_error

module _ {W : Type 0} (o : Preorder W) where
  pub record IsStep {A : Type 0} (m : Eff W A) : Type 0 where
    pub moves : (s : Run W) → o.relates s.world (m s).1.world

  pub idle : {A : Type 0} {m : Eff W A} → ((s : Run W) → s.world ≡ (m s).1.world) → IsStep m
  idle h = record { moves = λ s. rw (← h s) (o.relates-refl s.world) }

  pub await-IsStep : {A : Type 0} (e : Event) (op : Service W A) → Moves o op → IsStep (await e op)
  await-IsStep e op h = record { moves = λ s. h s.world }

  pub pure-IsStep : {A : Type 0} (a : A) → IsStep (pure a)
  pure-IsStep a = idle (λ s. refl)

  pub raise-IsStep : {A : Type 0} (e : Exn) → IsStep {A = A} (raise e)
  raise-IsStep e = idle (λ s. refl)

  pub lift-IsStep : {A : Type 0} (r : Result A) → IsStep (lift r)
  lift-IsStep r = idle (λ s. refl)

  pub now-IsStep : (clock : W → ℕ) → IsStep (now clock)
  now-IsStep clock = idle (λ s. refl)

  continue-step :
      {A B : Type 0} (p : Result A × Run W) (f : A → Eff W B) (w : W)
      → o.relates w p.1.world
      → ((a : A) → IsStep (f a))
      → o.relates w (continue p f).1.world
  continue-step (ok a, s) f w h q = o.relates-trans w s.world _ h ((q a).moves s)
  continue-step (err e, s) f w h q = h

  pub bind-IsStep :
      {A B : Type 0} (m : Eff W A) (f : A → Eff W B)
      → IsStep m
      → ((a : A) → IsStep (f a))
      → IsStep (m >>= f)
  unfolding ◌>>=◌
  bind-IsStep m f q r = record { moves = λ s. continue-step (m s) f s.world (q.moves s) r }

  handled-step :
      {A : Type 0} (p : Result A × Run W) (h : Exn → Eff W A) (w : W)
      → o.relates w p.1.world
      → ((e : Exn) → IsStep (h e))
      → o.relates w (handled p h).1.world
  handled-step (ok a, s) h w g q = g
  handled-step (err e, s) h w g q = o.relates-trans w s.world _ g ((q e).moves s)

  pub attempt-IsStep :
      {A : Type 0} (m : Eff W A) (h : Exn → Eff W A)
      → IsStep m
      → ((e : Exn) → IsStep (h e))
      → IsStep (attempt m h)
  unfolding attempt
  attempt-IsStep m h q r = record { moves = λ s. handled-step (m s) h s.world (q.moves s) r }

  pub if-IsStep :
      {A : Type 0} (b : Bool) (m k : Eff W A) → IsStep m → IsStep k → IsStep (if b then m else k)
  if-IsStep true m k q r = q
  if-IsStep false m k q r = r

  pub noted-step :
      {A : Type 0} (p : Result A × W) (good bad : Event) (s : Run W)
      → o.relates s.world p.1
      → o.relates s.world (noted p good bad s).1.world
  noted-step (ok a, w) good bad s h = h
  noted-step (err e, w) good bad s h = h
