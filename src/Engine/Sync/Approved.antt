-- ===== src/Engine/Sync/Approved.antt =====
-- async_engine.py, `_execute_with_approval` over the adapter of a `SQLiteApprovalStore`: the row of a
-- request whose function is called.
use sudo_agent.Base.{
  ℕ, String, ◌≡◌, ◌⊎◌, refl, Bool, true, false, Option, none, some, ◌∷◌, inl, inr,
}
use sudo_agent.Base.Int.{ℤ, pos, negsuc}
use sudo_agent.Base.Dict.{lookup}
use sudo_agent.Engine.Common.{deny, Result, ok, err, PolicyResult}
use sudo_agent.Engine.Services.{Service, Engine, Event, Run, Eff, continue, ◌>>=◌, service, await}
use sudo_agent.Engine.Build.{ExecutionState}
use sudo_agent.Engine.Approval.{Answer, expected_binding, parse_approval_response}
use sudo_agent.Engine.Execute.{
  store_pending, resolve_and_fetch, after_answer, execute_with_approval,
}
use sudo_agent.Engine.Traces.{calls, IsQuiet, bind-IsQuiet, attempt-IsQuiet}
use sudo_agent.Engine.Reasons.{approved_metadata}
use sudo_agent.Engine.Execute.Quiet.{
  resolve_and_fetch-IsQuiet, log_decision-IsQuiet, store_pending-IsQuiet, approval_failed-IsQuiet,
}
use sudo_agent.Engine.Execute.Stepwise.Parts.{store_fetch-IsStep, approval_failed-IsStep}
use sudo_agent.Engine.Execute.Stepwise.Whole.{execute_allowed-IsStep}
use sudo_agent.Engine.Adapters.{adapt_store}
use sudo_agent.Engine.Execute.Stepwise.{Moves, EngineMoves, IsStep, attempt-IsStep, await-IsStep}
use sudo_agent.Engine.Sync.Rows.{
  Place, OthersMove, sqlite_store, rows_order, engine-Moves, outcome, ignore, on_store, create_at,
}
use sudo_agent.Approvals.Common.{
  State, pending, approved, denied, expired, failed, state_name, validate_nonempty_str,
}
use sudo_agent.Approvals.Common
use sudo_agent.Approvals.Store.{Approval, Store, Action, create_pending, expire_expired, resolve}
use sudo_agent.Approvals.Store.Lifecycle.{Evolves}
use sudo_agent.Engine.Sync.Bound.{
  IsBound, IsApproved, IsBound-Evolves, IsApproved-Evolves, Succeeds, StoreBound, StoreApproved,
  swept, create_pending-Bound, resolve-Approved,
}

module _ {W : Type 0} where
  -- What holds of the world after a step that did not raise
  abbrev After : {A : Type 0} → (W → Type 0) → Result A × Run W → Type 0
  After Q (ok a, s) = Q s.world
  After Q (err e, s) = Unit

  abbrev Sets : {A : Type 0} → (W → Type 0) → Eff W A → (W → Type 0) → Type 0
  Sets P m Q = (s : Run W) → P s.world → After Q (m s)

  -- The function has not been called, or the world is as it must be for that.
  abbrev pub CallsOnlyIf : {A : Type 0} → (W → Type 0) → Run W → Result A × Run W → Type 0
  CallsOnlyIf Q s (r, s') = (calls s'.trace ≡ calls s.trace) ⊎ Q s'.world

  bind-Sets :
      {A B : Type 0} (P Q R : W → Type 0) (m : Eff W A) (f : A → Eff W B)
      → Sets P m Q
      → ((a : A) → Sets Q (f a) R)
      → Sets P (m >>= f) R
  unfolding ◌>>=◌
  bind-Sets {A = A} {B = B} P Q R m f q r s h = then_After (m s) (q s h)
    where
      then_After : (p : Result A × Run W) → After Q p → After R (continue p f)
      then_After (ok a, s') g = r a s' g
      then_After (err e, s') g = tt

  bind-CallsOnlyIf :
      {A B : Type 0} (P P' Q : W → Type 0) (m : Eff W A) (f : A → Eff W B)
      → IsQuiet m
      → Sets P m P'
      → ((a : A) (s : Run W) → P' s.world → CallsOnlyIf Q s (f a s))
      → (s : Run W) → P s.world
      → CallsOnlyIf Q s ((m >>= f) s)
  unfolding ◌>>=◌
  bind-CallsOnlyIf {A = A} {B = B} P P' Q m f quiet q r s h =
      then_CallsOnlyIf (m s) (quiet s).0 (q s h)
    where
      then_CallsOnlyIf :
          (p : Result A × Run W)
          → calls p.1.trace ≡ calls s.trace
          → After P' p
          → CallsOnlyIf Q s (continue p f)
      then_CallsOnlyIf (ok a, s') same g = rw same at (r a s' g)
      then_CallsOnlyIf (err e, s') same g = inl same

module _ {W : Type 0} (place : Place W) (clock : W → ℕ) (isoformat : ℕ → String) (e : Engine W)
    (max_ttl_seconds : ℤ)
    (store : e.approval_store
      ≡ some (adapt_store (sqlite_store place clock isoformat max_ttl_seconds)))
    (others : OthersMove (rows_order place) e) (st : ExecutionState) where
  abbrev row_of : W → Option Approval
  row_of w = lookup st.request_id (place.look w).rows

  abbrev IsFresh : W → Type 0
  IsFresh w = row_of w ≡ none

  abbrev RowBound : W → Type 0
  RowBound w = IsBound st.policy_hash st.decision_hash (row_of w)

  abbrev RowApproved : W → Type 0
  RowApproved w = IsApproved st.policy_hash st.decision_hash (row_of w)

  moves : EngineMoves (rows_order place) e
  moves = engine-Moves place clock isoformat e max_ttl_seconds store others

  on_store-After :
      {A B : Type 0} (P : Store → Type 0) (f : A → B) (action : ℕ → Action A) (ev : Event)
      (s : Run W)
      → Succeeds P (action (clock s.world) (place.look s.world))
      → After (λ w. P (place.look w)) (await ev (on_store place clock isoformat f action) s)
  on_store-After {A = A} {B = B} P f action ev s h =
      stored (action (clock s.world) (place.look s.world)) h
    where
      stored :
          (p : Common.Result A × Store)
          → Succeeds P p
          → After {A = B}
              (λ w. P (place.look w))
              (outcome f p.0, record s { world = place.put p.1 s.world; trace = ev ∷ s.trace })
      stored (Common.ok a, s') g = rw place.look-put g
      stored (Common.err e, s') g = tt

  moved :
      {A : Type 0} (P : Option Approval → Type 0) (m : Eff W A)
      → ((o o' : Option Approval) → Evolves o o' → P o → P o')
      → IsStep (rows_order place) m
      → Sets (λ w. P (row_of w)) m (λ w. P (row_of w))
  moved {A = A} P m stable step s b = held (m s) (step.moves s)
    where
      held :
          (p : Result A × Run W)
          → (rows_order place).relates s.world p.1.world
          → After (λ w. P (row_of w)) p
      held (ok a, s') h = stable (row_of s.world) (row_of s'.world) (h st.request_id) b
      held (err x, s') h = tt

  created :
      (at : ℤ)
      → Sets IsFresh
          (await
            (service "store.create_pending")
            (create_at place clock isoformat st.request_id st.policy_hash st.decision_hash at))
          RowBound
  created (pos t) s fresh =
      on_store-After (StoreBound st.request_id st.policy_hash st.decision_hash)
        (ignore place clock isoformat)
        (create_pending st.request_id st.policy_hash st.decision_hash (some t))
        (service "store.create_pending") s
        (create_pending-Bound st.request_id st.policy_hash st.decision_hash (some t) (clock s.world)
          (place.look s.world) fresh)
  created (negsuc n) s fresh = tt

  store_pending-Sets : (at : ℤ) → Sets IsFresh (store_pending e st at e.approval_store) RowBound
  unfolding expire_expired
  store_pending-Sets at = rw store (
      bind-Sets IsFresh IsFresh RowBound _ _
        (λ s fresh. rw place.look-put (
          swept st.request_id st.policy_hash st.decision_hash (clock s.world) (place.look s.world)
            fresh))
        (λ _. created at))

  resolve_and_fetch-Sets :
      (approver : Option String)
      → Sets RowBound (resolve_and_fetch e st "approved" approver) RowApproved
  resolve_and_fetch-Sets approver =
      bind-Sets RowBound RowApproved RowApproved _ _ (rw store resolving) λ _.
        moved (IsApproved st.policy_hash st.decision_hash) _
          (IsApproved-Evolves st.policy_hash st.decision_hash)
          (store_fetch-IsStep (rows_order place) e moves st e.approval_store moves.approval_store)
    where
      resolving :
          Sets RowBound
            (await (service "store.resolve") (
              on_store place clock isoformat
                (ignore place clock isoformat)
                (resolve st.request_id "approved" approver none)))
            RowApproved
      resolving s b =
          on_store-After (StoreApproved st.request_id st.policy_hash st.decision_hash)
            (ignore place clock isoformat) (resolve st.request_id "approved" approver none)
            (service "store.resolve") s
            (resolve-Approved st.request_id st.policy_hash st.decision_hash approver (clock s.world)
              (place.look s.world) b)

  module _ {R : Type 0} (func : Service W R) (calls_move : Moves (rows_order place) func) where
    after_answer-CallsOnlyIf :
        (result : PolicyResult) (code : Option String) (a : Answer) (b : Bool) (s : Run W)
        → RowBound s.world
        → CallsOnlyIf RowApproved s (after_answer e func st result code a b s)
    after_answer-CallsOnlyIf result code a true s h =
        bind-CallsOnlyIf RowBound RowApproved RowApproved _ _
          (resolve_and_fetch-IsQuiet e st "approved" a.approver_id)
          (resolve_and_fetch-Sets a.approver_id)
          (λ entry s1 g. inr (
            IsApproved-Evolves st.policy_hash st.decision_hash (row_of s1.world) _
              ((execute_allowed-IsStep (rows_order place) e moves func calls_move st result.reason
                  code (some (approved_metadata a)) entry).moves
                s1 st.request_id)
              g))
          s h
    after_answer-CallsOnlyIf result code a false s h = inl (
        (bind-IsQuiet _ _ (resolve_and_fetch-IsQuiet e st "denied" a.approver_id)
          (λ entry.
            bind-IsQuiet _ _ (log_decision-IsQuiet e st deny result.reason _ _ _ _ entry)
              λ _ s1. (refl, refl))
          s).0)

    -- The approval path of an engine whose approval store is a `SQLiteApprovalStore` behind its adapter,
    -- where the table has no row of the request's id at the start, and the other services and the
    -- guarded function at most let the rows of the table evolve: the function is called only if at the
    -- end, however the call ends, the request's row is approved and has the policy hash and the
    -- decision hash of this call.
    pub execute_with_approval-CallsOnlyIf :
        (result : PolicyResult) (code : Option String) (s : Run W)
        → lookup st.request_id (place.look s.world).rows ≡ none
        → CallsOnlyIf RowApproved s (execute_with_approval e func st result code s)
    unfolding execute_with_approval
    execute_with_approval-CallsOnlyIf result code s fresh =
        bind-CallsOnlyIf IsFresh IsFresh RowApproved _ _ (λ s. (refl, refl)) (λ s h. h)
          (λ t.
            bind-CallsOnlyIf IsFresh RowBound RowApproved _ _
              (store_pending-IsQuiet e st _ e.approval_store) (store_pending-Sets _)
              λ _.
                bind-CallsOnlyIf RowBound RowBound RowApproved _ _
                  (attempt-IsQuiet _ _ (λ s. (refl, refl)) (approval_failed-IsQuiet e st))
                  (moved (IsBound st.policy_hash st.decision_hash) _
                    (IsBound-Evolves st.policy_hash st.decision_hash)
                    (attempt-IsStep (rows_order place) _ _
                      (await-IsStep (rows_order place) _ _
                        (others.approve st.ctx result st.request_id _))
                      (approval_failed-IsStep (rows_order place) e moves st)))
                  λ response s3.
                    after_answer-CallsOnlyIf result code
                      (parse_approval_response e.str_of response
                        (expected_binding st.request_id st.policy_hash st.decision_hash))
                      _ s3)
          s fresh
