-- ===== src/Budgets/Memory/Stale.antt =====
-- A check older than the window no longer counts, but until two windows have passed it can still be
-- committed, and `commit` tests no limit.
use sudo_agent.Base.{
  ℕ, ◌+◌, ◌*◌, ◌≤◌, ◌<◌, String, ◌≡◌, refl, true, Option, none, some, arith, eq_iff,
}
use sudo_agent.Base.Dict.{lookup}
use sudo_agent.Budgets.Common.{ok, Charge, by_agent, over}
use sudo_agent.Budgets.Memory.{BudgetManager, window, prune, current_usage, commit}
use sudo_agent.Budgets.Memory.Outcomes.{moved, commit_of_pending}
use sudo_agent.Budgets.Memory.Spending.{counted, current_usage-prune}
use sudo_agent.Budgets.Memory.Enforcement.{Fits, IsWithin, current_usage-moved, limits-prune}
use sudo_agent.Budgets.Memory.Histories.{IsValid}
use sudo_agent.Budgets.Memory.Requests.{lookup_of_prune_pending, committed_of_prune, counted-prune}

counted_stale :
    (now w : ℕ) (c : Charge)
    → c.ts + w < now
    → (counted now w by_agent c.agent c ≡ 0)
      × (counted now w by_agent c.agent (record c { ts = now }) ≡ c.cost)
counted_stale now w c old = (ground arith, ground (arith, eq_iff c.agent c.agent))

not-Fits_of_over :
    (l : Option ℕ) (usage cost : ℕ) → over l usage cost ≡ true → ¬ Fits l (usage + cost)
not-Fits_of_over none usage cost h f = cc
not-Fits_of_over (some limit) usage cost h f = ground arith

module _ (rid : String) (now : ℕ) (m : BudgetManager) (c : Charge) (valid : IsValid m)
    (absent : lookup rid m.committed ≡ none) (found : lookup rid m.pending ≡ some c)
    (old : c.ts + m.window_seconds * 1000000 < now)
    (kept : now ≤ c.ts + m.window_seconds * 1000000 * 2) where
  commit_of_stale-eq : commit rid now m ≡ (ok tt, moved now rid c (prune now m))
  commit_of_stale-eq =
      commit_of_pending rid now m (committed_of_prune rid now m absent)
        (lookup_of_prune_pending rid now m c valid found kept)

  usage_of_stale :
      current_usage now by_agent c.agent (moved now rid c (prune now m))
      ≡ current_usage now by_agent c.agent m + c.cost
  usage_of_stale = omega (
    arith,
    current_usage-moved rid now m (prune now m) by_agent c.agent
        (committed_of_prune rid now m absent)
        (lookup_of_prune_pending rid now m c valid found kept),
    current_usage-prune now by_agent c.agent m,
    counted-prune now by_agent c.agent c m,
    counted-prune now by_agent c.agent (record c { ts = now }) m,
    (counted_stale now (window m) c old).0,
    (counted_stale now (window m) c old).1,
  )

  -- In a well-formed manager, a request that is not committed and has a pending record older than a
  -- window and not older than two is committed with success also where its agent has no room for
  -- it: the manager is then not within its limits.
  pub commit_of_stale_exceeds :
      over m.limits.agent_limit (current_usage now by_agent c.agent m) c.cost ≡ true
      → ((commit rid now m).0 ≡ ok tt) × (¬ IsWithin now (commit rid now m).1)
  commit_of_stale_exceeds full = rw commit_of_stale-eq (
    refl,
    λ within.
        not-Fits_of_over m.limits.agent_limit _ _ full
          (rw (usage_of_stale, limits-prune) at (within by_agent c.agent)),
  )
