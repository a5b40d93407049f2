-- ===== src/Budgets/Memory/Outcomes.antt =====
-- What `commit` does in each of its three cases, on the manager that pruning leaves.
use sudo_agent.Base.{ℕ, ◌+◌, String, ◌≡◌, none, some, Bool-cases, inl, inr, if◌then◌else◌}
use sudo_agent.Base.Dict.{lookup, insert, erase}
use sudo_agent.Budgets.Common.{ok, err, state_error, Charge}
use sudo_agent.Budgets.Memory.{BudgetManager, prune, commit}

-- The record leaves the pending ones and joins the committed ones, stamped anew.
abbrev pub moved : ℕ → String → Charge → BudgetManager → BudgetManager
moved now rid c m = record m {
  committed = insert rid (record c { ts = now }) m.committed;
  total_spend = if m.spend_counter then m.total_spend + c.cost else m.total_spend;
  pending = erase rid m.pending;
}

module _ (rid : String) (now : ℕ) (m : BudgetManager) where
  pub commit_of_committed :
      {c : Charge}
      → lookup rid (prune now m).committed ≡ some c
      → commit rid now m ≡ (ok tt, prune now m)
  unfolding commit
  commit_of_committed h = rw h

  pub commit_of_unknown :
      lookup rid (prune now m).committed ≡ none
      → lookup rid (prune now m).pending ≡ none
      → commit rid now m ≡ (err (state_error "pending check not found for commit"), prune now m)
  unfolding commit
  commit_of_unknown h k = rw (h, k)

  pub commit_of_pending :
      {c : Charge}
      → lookup rid (prune now m).committed ≡ none
      → lookup rid (prune now m).pending ≡ some c
      → commit rid now m ≡ (ok tt, moved now rid c (prune now m))
  unfolding commit
  commit_of_pending h k = elim (Bool-cases (prune now m).spend_counter) [
    | inl counting ↦ rw (h, k, counting)
    | inr plain ↦ rw (h, k, plain)
  ]
