-- ===== src/Engine/Sync/Guarding.antt =====
-- engine.py: what the synchronous engine takes over from the asynchronous one, and what gets lost in its
-- adapters.
use sudo_agent.Base.{String, ◌≡◌, refl, true, false, Option, none, some, ◌==◌}
use sudo_agent.Base.Int.{pos}
use sudo_agent.Value.{int}
use sudo_agent.Value.Dict.{at}
use sudo_agent.Engine.Common.{Result, ok, err}
use sudo_agent.Engine.Services.{Policy, Engine}
use sudo_agent.Engine.Build.{ExecutionState}
use sudo_agent.Engine.Entries.{budget_block, window_of}
use sudo_agent.Engine.Adapters.{SyncBudgetManager, adapt_budget}
use sudo_agent.Engine.Sync.{
  Imports, EngineOptions, SudoEngine, valid_agent_id, async_engine_of, adapted, init, init_with,
  init_policy, from_env,
}

module _ {W : Type 0} (imports : Imports W) (env : Option String) (a : EngineOptions W) where
  init_with-adapted :
      (policy : Policy W) (r : Result String) (e : SudoEngine W)
      → init_with imports env a policy r ≡ ok e
      → e.async_engine.budget_manager ≡ adapted adapt_budget a.budget_manager
  init_with-adapted policy (ok id) e h = cc h
  init_with-adapted policy (err x) e h = absurd (cc h)

  init-adapted :
      (p : Option (Policy W)) (e : SudoEngine W)
      → init_policy imports env a p ≡ ok e
      → e.async_engine.budget_manager ≡ adapted adapt_budget a.budget_manager
  init-adapted none e h = absurd (cc h)
  init-adapted (some p) e h = init_with-adapted p (valid_agent_id a.agent_id) e h

  window_of-adapted : (m : Option (SyncBudgetManager W)) → window_of (adapted adapt_budget m) ≡ none
  window_of-adapted none = refl
  window_of-adapted (some m) = refl

  default_window :
      (self : Engine W) (st : ExecutionState)
      → self.budget_manager ≡ adapted adapt_budget a.budget_manager
      → at "window_seconds" (budget_block self st true) ≡ int (pos 3600)
  default_window self st h = rw (h, window_of-adapted a.budget_manager) refl

  -- Whatever the window of the budget manager: the budget that an engine from the constructor writes to
  -- the ledger for a checked call has the window of 3600 seconds.
  pub budget_window :
      (e : SudoEngine W) (st : ExecutionState)
      → init imports env a ≡ ok e
      → at "window_seconds" (budget_block e.async_engine st true) ≡ int (pos 3600)
  unfolding init
  budget_window e st h = default_window e.async_engine st (init-adapted a.policy e h)

module _ {W : Type 0} (imports : Imports W) (path : String) (a : EngineOptions W)
    (filled : (path == "") ≡ false) (no_ledger : a.ledger ≡ none) where
  abbrev with_path : EngineOptions W
  with_path = record a { ledger = some (imports.jsonl_ledger path) }

  async_engine_of-with_path :
      (p : Policy W) (id : String)
      → async_engine_of imports (some path) with_path p id
        ≡ async_engine_of imports (some path) a p id
  async_engine_of-with_path p id = rw (no_ledger, filled) refl

  init_with-with_path :
      (p : Policy W) (r : Result String)
      → init_with imports (some path) with_path p r ≡ init_with imports (some path) a p r
  init_with-with_path p (err x) = refl
  init_with-with_path p (ok id) = rw (async_engine_of-with_path p id) refl

  init_policy-with_path :
      (p : Option (Policy W))
      → init_policy imports (some path) with_path p ≡ init_policy imports (some path) a p
  init_policy-with_path none = refl
  init_policy-with_path (some p) = init_with-with_path p (valid_agent_id a.agent_id)

  -- Where the variable has a path, an engine from the environment is the one from the constructor
  -- that is given no ledger, or both raise the same error.
  pub from_env-init : from_env imports (some path) a ≡ init imports (some path) a
  unfolding from_env init
  from_env-init = rw filled (init_policy-with_path a.policy)
