-- ===== src/Budgets/Sqlite.antt =====
-- budgets.py, `class SQLiteBudgetManager`: the durable manager. Its two tables have `request_id` as
-- primary key, so each is a list of rows by key; instants, stored as UTC ISO texts that sort by
-- time, are compared as instants. A call is one transaction: raising rolls it back.
pub mod Fitting
pub mod Refinement
pub mod Histories
mod Examples
use sudo_agent.Base.{
  ℕ, ◌+◌, ◌*◌, ◌^◌, ltb, not, String, Bool, Option, none, some, [], ◌∷◌, ◌&&◌, leb, if◌then◌else◌,
}
use sudo_agent.Base.Int.{ℤ}
use sudo_agent.Base.Dict.{Dict, lookup, contains, insert, erase, keep}
use sudo_agent.Budgets.Common.{
  integrity_error, overflow_error, operational_error, Result, ok, err, Action, pure, raise, gets,
  modify, lift, ◌>>=◌, ◌>>◌, Charge, CheckResult, KeyType, Limits, validate_cost, CheckOps,
  CommitOps, check_common, commit_common,
}
use sudo_agent.Budgets.Memory.{matches}

pub record Database : Type 0 where
  pub limits : Limits
  pub window_seconds : ℕ
  pub spend_counter : Bool
  pub pending : Dict Charge
  pub committed : Dict Charge

abbrev pub window : Database → ℕ
window s = s.window_seconds * 1000000

-- `conn.commit()` at the end of a call that did not raise; without it the connection's close drops
-- what the call wrote.
abbrev pub settle : {A : Type 0} → Database → Result A × Database → Result A × Database
settle s (ok a, s') = (ok a, s')
settle s (err e, s') = (err e, s)

abbrev pub transaction : {A : Type 0} → Action Database A → Action Database A
transaction m s = settle s (m s)

-- `_prune_with_conn`
pub prune_with_conn : ℕ → Database → Database
prune_with_conn now s = record s {
  committed = keep (λ c. leb now (c.ts + window s)) s.committed;
  pending = keep (λ c. leb now (c.ts + window s * 2)) s.pending;
}

-- What an `INTEGER` of SQLite holds, of the integers that are not negative
abbrev pub fits_integer : ℕ → Bool
fits_integer n = ltb n (2 ^ 63)

-- The costs that the `SELECT` adds up
pub costs_where : ℕ → ℕ → KeyType → String → Dict Charge → ℕ
costs_where now w key value [] = 0
costs_where now w key value ((_, c) ∷ rows) =
    let rest = costs_where now w key value rows in
    if matches key value c && leb now (c.ts + w) then c.cost + rest else rest

-- `SELECT COALESCE(SUM(cost), 0) FROM t WHERE {key} = ? AND {timestamp} >= ?`: no cost is negative, so
-- that the sum is too large at the end if it is so on the way.
pub sum_where : ℕ → ℕ → KeyType → String → Dict Charge → Result ℕ
unfolding costs_where
sum_where now w key value rows =
    let sum = costs_where now w key value rows in
    if fits_integer sum then ok sum else err operational_error

abbrev pub then_result : {A B : Type 0} → Result A → (A → Result B) → Result B
then_result (ok a) f = f a
then_result (err e) f = err e

-- `_usage`
pub usage : ℕ → KeyType → String → Database → Result ℕ
unfolding sum_where
usage now key value s = then_result (sum_where now (window s) key value s.committed) λ committed.
    then_result (sum_where now (window s) key value s.pending) λ pending. ok (committed + pending)

-- `INSERT INTO t (request_id, ...)`; the cost is bound to its column before the row is looked at.
abbrev pub insert_row : String → Charge → Dict Charge → Result (Dict Charge)
insert_row rid c rows =
    if not (fits_integer c.cost)
    then err overflow_error
    else if contains rid rows
    then err integrity_error
    else ok (insert rid c rows)

check_ops : ℕ → CheckOps Database
unfolding usage
check_ops now = record {
  exists_committed = λ rid. gets (λ s. contains rid s.committed);
  exists_pending = λ rid. gets (λ s. contains rid s.pending);
  usage = λ key value s. (usage now key value s, s);
  add_pending = λ rid c. do
    s ← gets (λ s. s)
    rows ← lift (insert_row rid c s.pending)
    modify (λ s. record s { pending = rows });
}

commit_ops : CommitOps Database
commit_ops = record {
  exists_committed = λ rid. gets (λ s. contains rid s.committed);
  get_pending = λ rid. gets (λ s. lookup rid s.pending);
  add_committed = λ rid c. do
    s ← gets (λ s. s)
    rows ← lift (insert_row rid c s.committed)
    modify (λ s. record s { committed = rows });
  delete_pending = λ rid. modify (λ s. record s { pending = erase rid s.pending });
  on_spend = λ cost. pure tt;
}

-- `check`, the clock reading `now`
pub check : String → String → String → ℤ → ℕ → Action Database CheckResult
unfolding check_ops check_common validate_cost
check request_id agent tool cost now = do
  c ← lift (validate_cost cost)
  transaction (do
    modify (prune_with_conn now)
    s ← gets (λ s. s)
    check_common (check_ops now) request_id agent tool c now s.limits)

-- `commit`, the clock reading `now`
pub commit : String → ℕ → Action Database Unit
unfolding commit_ops commit_common
commit request_id now = transaction (do
  modify (prune_with_conn now)
  s ← gets (λ s. s)
  commit_common commit_ops request_id now s.spend_counter)
