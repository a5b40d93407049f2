-- ===== src/Budgets/Memory.antt =====
-- budgets.py, `class BudgetManager`: the in-memory manager. The clock's reading is an argument, and
-- `ts >= now - window` is written `now <= ts + window`.
pub mod Spending
pub mod Outcomes
pub mod Enforcement
pub mod Histories
pub mod Requests
pub mod Deciding
pub mod Stale
mod Examples
use sudo_agent.Base.{
  ℕ, ◌+◌, ◌*◌, String, Bool, Option, none, some, [], ◌∷◌, ◌==◌, ltb, leb, if◌then◌else◌,
}
use sudo_agent.Base.Int.{ℤ, pos, negsuc}
use sudo_agent.Base.Dict.{Dict, lookup, contains, insert, erase, keep}
use sudo_agent.Budgets.Common.{
  value_error, Result, ok, err, Action, gets, modify, lift, ◌>>=◌, ◌>>◌, Charge, CheckResult,
  KeyType, by_agent, by_tool, Limits, validate_cost, CheckOps, CommitOps, check_common,
  commit_common,
}

pub record BudgetManager : Type 0 where
  pub limits : Limits
  pub budget_key : Option String
  pub window_seconds : ℕ
  pub spend_counter : Bool
  pub pending : Dict Charge
  pub committed : Dict Charge
  pub total_spend : ℕ

-- `self.window` in microseconds
abbrev pub window : BudgetManager → ℕ
window m = m.window_seconds * 1000000

abbrev non_negative : String → Option ℤ → Result (Option ℕ)
non_negative message none = ok none
non_negative message (some (pos n)) = ok (some n)
non_negative message (some (negsuc n)) = err (value_error message)

abbrev positive : ℤ → Result ℕ
positive (negsuc n) = err (value_error "window_seconds must be positive")
positive (pos n) = if ltb 0 n then ok n else err (value_error "window_seconds must be positive")

abbrev then_result : {A B : Type 0} → Result A → (A → Result B) → Result B
then_result (ok a) f = f a
then_result (err e) f = err e

-- `BudgetManager.__init__`
pub init : Option ℤ → Option ℤ → ℤ → Option String → Bool → Result BudgetManager
init agent_limit tool_limit window_seconds budget_key spend_counter =
    then_result (non_negative "agent_limit must be non-negative when provided" agent_limit) λ a.
      then_result (non_negative "tool_limit must be non-negative when provided" tool_limit) λ t.
        then_result (positive window_seconds) λ w. ok (record {
          limits = record { agent_limit = a; tool_limit = t };
          budget_key = budget_key;
          window_seconds = w;
          spend_counter = spend_counter;
          pending = [];
          committed = [];
          total_spend = 0;
        })

-- `_prune`
unfoldable pub prune : ℕ → BudgetManager → BudgetManager
prune now m = record m {
  committed = keep (λ c. leb now (c.ts + window m)) m.committed;
  pending = keep (λ c. leb now (c.ts + window m * 2)) m.pending;
}

abbrev pub matches : KeyType → String → Charge → Bool
matches by_agent value c = c.agent == value
matches by_tool value c = c.tool == value

-- One of the two loops of `_current_usage`, from the `usage` so far.
pub usage_loop : ℕ → ℕ → KeyType → String → ℕ → Dict Charge → ℕ
usage_loop now w key_type value usage [] = usage
usage_loop now w key_type value usage ((_, c) ∷ d) =
    usage_loop now w key_type value
      (if ltb (c.ts + w) now
        then usage
        else if matches key_type value c
        then usage + c.cost
        else usage)
      d

-- `_current_usage`
unfoldable pub current_usage : ℕ → KeyType → String → BudgetManager → ℕ
unfolding usage_loop
current_usage now key_type value m =
    usage_loop now (window m) key_type value
      (usage_loop now (window m) key_type value 0 m.committed) m.pending

check_ops : ℕ → CheckOps BudgetManager
unfolding current_usage
check_ops now = record {
  exists_committed = λ rid. gets (λ m. contains rid m.committed);
  exists_pending = λ rid. gets (λ m. contains rid m.pending);
  usage = λ key_type value. gets (current_usage now key_type value);
  add_pending = λ rid c. modify (λ m. record m { pending = insert rid c m.pending });
}

commit_ops : CommitOps BudgetManager
commit_ops = record {
  exists_committed = λ rid. gets (λ m. contains rid m.committed);
  get_pending = λ rid. gets (λ m. lookup rid m.pending);
  add_committed = λ rid c. modify (λ m. record m { committed = insert rid c m.committed });
  delete_pending = λ rid. modify (λ m. record m { pending = erase rid m.pending });
  on_spend = λ cost. modify (λ m. record m { total_spend = m.total_spend + cost });
}

-- `check`, the clock reading `now`
unfoldable pub check : String → String → String → ℤ → ℕ → Action BudgetManager CheckResult
unfolding check_ops check_common validate_cost
check request_id agent tool cost now = do
  c ← lift (validate_cost cost)
  modify (prune now)
  m ← gets (λ m. m)
  check_common (check_ops now) request_id agent tool c now m.limits

-- `commit`, the clock reading `now`
unfoldable pub commit : String → ℕ → Action BudgetManager Unit
unfolding commit_ops commit_common
commit request_id now = do
  modify (prune now)
  m ← gets (λ m. m)
  commit_common commit_ops request_id now m.spend_counter
