-- ===== src/Budgets/Memory/Histories.antt =====
-- Any history of calls, under a clock that does not go back.
use sudo_agent.Base.{ℕ, ◌≤◌, String, List, [], ◌∷◌, arith, Option-cases, inl, inr}
use sudo_agent.Base.Int.{ℤ, pos, negsuc}
use sudo_agent.Base.Dict.{lookup, NodupKeys, insert-NodupKeys, erase-NodupKeys, keep-NodupKeys}
use sudo_agent.Budgets.Common.{Charge}
use sudo_agent.Budgets.Memory.{BudgetManager, prune, check, commit}
use sudo_agent.Budgets.Memory.Outcomes.{
  moved, commit_of_committed, commit_of_unknown, commit_of_pending,
}
use sudo_agent.Budgets.Memory.Enforcement.{IsWithin, IsFresh, check-IsWithin, commit-IsWithin}

-- Both dicts are dicts.
pub record IsValid (m : BudgetManager) : Type 0 where
  pub pending : NodupKeys m.pending
  pub committed : NodupKeys m.committed

pub prune-IsValid : (now : ℕ) (m : BudgetManager) → IsValid m → IsValid (prune now m)
unfolding prune
prune-IsValid now m h = record {
  pending = keep-NodupKeys _ m.pending h.pending;
  committed = keep-NodupKeys _ m.committed h.committed;
}

pub check-IsValid :
    (rid agent tool : String) (cost : ℤ) (now : ℕ) (m : BudgetManager)
    → IsValid m
    → IsValid (check rid agent tool cost now m).1
unfolding check
check-IsValid rid agent tool (negsuc n) now m h = h
check-IsValid rid agent tool (pos n) now m h = ground (
  arith,
  prune-IsValid now m h,
  insert-NodupKeys rid (record { agent = agent; tool = tool; cost = n; ts = now })
      (prune now m).pending,
)

moved-IsValid :
    (now : ℕ) (rid : String) (c : Charge) (m : BudgetManager)
    → IsValid m
    → IsValid (moved now rid c m)
moved-IsValid now rid c m h = record {
  pending = erase-NodupKeys rid m.pending h.pending;
  committed = insert-NodupKeys rid _ m.committed h.committed;
}

pub commit-IsValid :
    (rid : String) (now : ℕ) (m : BudgetManager) → IsValid m → IsValid (commit rid now m).1
commit-IsValid rid now m h = elim (Option-cases (lookup rid (prune now m).committed)) [
  | inl nc ↦ elim (Option-cases (lookup rid (prune now m).pending)) [
    | inl np ↦ rw (commit_of_unknown rid now m nc np) (prune-IsValid now m h)
    | inr (c, p) ↦
        rw (commit_of_pending rid now m nc p) (moved-IsValid now rid c _ (prune-IsValid now m h))
  ]
  | inr (c, p) ↦ rw (commit_of_committed rid now m p) (prune-IsValid now m h)
]

-- A call with the clock's reading.
pub data Call : Type 0 where
  checks : String → String → String → ℤ → ℕ → Call
  commits : String → ℕ → Call

abbrev pub time : Call → ℕ
time (checks rid agent tool cost now) = now
time (commits rid now) = now

-- The manager after a call, whatever the call returned or raised.
abbrev pub perform : Call → BudgetManager → BudgetManager
perform (checks rid agent tool cost now) m = (check rid agent tool cost now m).1
perform (commits rid now) m = (commit rid now m).1

abbrev pub run : List Call → BudgetManager → BudgetManager
run [] m = m
run (c ∷ calls) m = run calls (perform c m)

abbrev pub last_time : ℕ → List Call → ℕ
last_time t [] = t
last_time t (c ∷ calls) = last_time (time c) calls

abbrev pub CommitIsFresh : Call → BudgetManager → Type 0
CommitIsFresh (checks rid agent tool cost now) m = Unit
CommitIsFresh (commits rid now) m = IsFresh now rid m

-- The clock does not go back, and each commit comes within a window of its check.
abbrev pub IsTimely : ℕ → List Call → BudgetManager → Type 0
IsTimely t [] m = Unit
IsTimely t (c ∷ calls) m = (t ≤ time c) × CommitIsFresh c m × IsTimely (time c) calls (perform c m)

-- From a well-formed manager that is within its limits, any history of checks and commits, failing
-- ones included, under a clock that does not go back and with no commit of a record older than the
-- window, ends within the limits for every agent and every tool.
pub run-IsWithin :
    (t : ℕ) (calls : List Call) (m : BudgetManager)
    → IsValid m
    → IsWithin t m
    → IsTimely t calls m
    → IsWithin (last_time t calls) (run calls m)
run-IsWithin t [] m valid within timely = within
run-IsWithin t (checks rid agent tool cost now ∷ calls) m valid within (le, fresh, timely) =
    run-IsWithin now calls (check rid agent tool cost now m).1
      (check-IsValid rid agent tool cost now m valid)
      (check-IsWithin rid agent tool cost t now m within le) timely
run-IsWithin t (commits rid now ∷ calls) m valid within (le, fresh, timely) =
    run-IsWithin now calls (commit rid now m).1 (commit-IsValid rid now m valid)
      (commit-IsWithin rid t now m valid.pending within le fresh) timely
