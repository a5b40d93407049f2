-- ===== src/Budgets/Memory/Enforcement.antt =====
-- The limits hold over every window, as long as what is committed was checked within a window.
use sudo_agent.Base.{
  ℕ, ◌+◌, ◌≤◌, String, ◌≡◌, refl, Option, none, some, arith, eq_iff, Option-cases, inl, inr,
}
use sudo_agent.Base.Int.{ℤ, pos, negsuc}
use sudo_agent.Base.Dict.{NodupKeys, lookup, lookup_of_keep, insert, erase}
use sudo_agent.Budgets.Common.{KeyType, by_agent, by_tool, Limits, Charge}
use sudo_agent.Budgets.Memory.{BudgetManager, window, current_usage, prune, check, commit}
use sudo_agent.Budgets.Memory.Outcomes.{
  moved, commit_of_committed, commit_of_unknown, commit_of_pending,
}
use sudo_agent.Budgets.Memory.Spending.{
  counted, current_usage-eq-spent, current_usage-prune, current_usage_mono, spent-insert,
  spent-erase,
}

abbrev pub limit_of : KeyType → Limits → Option ℕ
limit_of by_agent l = l.agent_limit
limit_of by_tool l = l.tool_limit

abbrev pub Fits : Option ℕ → ℕ → Type 0
Fits none usage = Unit
Fits (some limit) usage = usage ≤ limit

pub limits-prune : (now : ℕ) (m : BudgetManager) → (prune now m).limits ≡ m.limits
unfolding prune
limits-prune now m = refl

-- At `now` no agent and no tool has used more than its limit.
abbrev pub IsWithin : ℕ → BudgetManager → Type 0
IsWithin now m =
    (kt : KeyType) (v : String) → Fits (limit_of kt m.limits) (current_usage now kt v m)

pub prune-IsWithin :
    (now now' : ℕ) (m : BudgetManager) → IsWithin now m → now ≤ now' → IsWithin now' (prune now' m)
unfolding prune
prune-IsWithin now now' m h le by_agent v = ground (
  arith,
  h by_agent v,
  current_usage-prune now' by_agent v m,
  current_usage_mono now now' by_agent v m,
)
prune-IsWithin now now' m h le by_tool v = ground (
  arith,
  h by_tool v,
  current_usage-prune now' by_tool v m,
  current_usage_mono now now' by_tool v m,
)

pub current_usage-add_pending :
    (now : ℕ) (kt : KeyType) (v rid : String) (c : Charge) (m : BudgetManager)
    → lookup rid m.pending ≡ none
    → current_usage now kt v (record m { pending = insert rid c m.pending })
      ≡ current_usage now kt v m + counted now (window m) kt v c
current_usage-add_pending now kt v rid c m fresh =
    simp current_usage-eq-spent
      (omega (arith, spent-insert now (window m) kt v rid c m.pending fresh))

pub check-IsWithin :
    (rid agent tool : String) (cost : ℤ) (now now' : ℕ) (m : BudgetManager)
    → IsWithin now m
    → now ≤ now'
    → IsWithin now' (check rid agent tool cost now' m).1
unfolding check
check-IsWithin rid agent tool (negsuc n) now now' m h le by_agent v =
    ground (arith, h by_agent v, current_usage_mono now now' by_agent v m)
check-IsWithin rid agent tool (negsuc n) now now' m h le by_tool v =
    ground (arith, h by_tool v, current_usage_mono now now' by_tool v m)
check-IsWithin rid agent tool (pos n) now now' m h le by_agent v = ground (
  arith,
  prune-IsWithin now now' m h le by_agent v,
  current_usage-add_pending now' by_agent v rid
      (record { agent = agent; tool = tool; cost = n; ts = now' }) (prune now' m),
  eq_iff agent v,
)
check-IsWithin rid agent tool (pos n) now now' m h le by_tool v = ground (
  arith,
  prune-IsWithin now now' m h le by_tool v,
  current_usage-add_pending now' by_tool v rid
      (record { agent = agent; tool = tool; cost = n; ts = now' }) (prune now' m),
  eq_iff tool v,
)

abbrev pub Younger : ℕ → ℕ → Option Charge → Type 0
Younger now w none = Unit
Younger now w (some c) = now ≤ c.ts + w

-- What is pending under `rid` was checked at most a window before `now`.
abbrev pub IsFresh : ℕ → String → BudgetManager → Type 0
IsFresh now rid m = Younger now (window m) (lookup rid m.pending)

-- The usage once a pending record has become a committed one with the clock's reading.
current_usage-move :
    (now : ℕ) (kt : KeyType) (v rid : String) (c : Charge) (spend : ℕ) (m : BudgetManager)
    → lookup rid m.committed ≡ none
    → lookup rid m.pending ≡ some c
    → current_usage now kt v (record m {
      committed = insert rid (record c { ts = now }) m.committed;
      total_spend = spend;
      pending = erase rid m.pending;
    })
        + counted now (window m) kt v c
      ≡ current_usage now kt v m + counted now (window m) kt v (record c { ts = now })
current_usage-move now kt v rid c spend m fresh found = simp current_usage-eq-spent (
    omega (
      arith,
      spent-insert now (window m) kt v rid (record c { ts = now }) m.committed fresh,
      spent-erase now (window m) kt v rid c m.pending found,
    ))

-- A record that still counts is moved with no change to any usage.
counted_again :
    (now w : ℕ) (kt : KeyType) (v : String) (c : Charge)
    → now ≤ c.ts + w
    → counted now w kt v (record c { ts = now }) ≡ counted now w kt v c
counted_again now w by_agent v c h = ground arith
counted_again now w by_tool v c h = ground arith

module _ (rid : String) (now : ℕ) (m : BudgetManager) where
  -- The usages, once a pending record has been committed.
  pub current_usage-moved :
      {c : Charge} (n : BudgetManager) (kt : KeyType) (v : String)
      → lookup rid n.committed ≡ none
      → lookup rid n.pending ≡ some c
      → current_usage now kt v (moved now rid c n) + counted now (window n) kt v c
        ≡ current_usage now kt v n + counted now (window n) kt v (record c { ts = now })
  current_usage-moved {c} n kt v h k = current_usage-move now kt v rid c _ n h k

Fits-of_le : (l : Option ℕ) (a b : ℕ) → a ≤ b → Fits l b → Fits l a
Fits-of_le none a b le h = tt
Fits-of_le (some limit) a b le h = omega arith

pub pending_of_prune :
    (rid : String) (now : ℕ) (m : BudgetManager) {c : Charge}
    → NodupKeys m.pending
    → lookup rid (prune now m).pending ≡ some c
    → lookup rid m.pending ≡ some c
unfolding prune
pending_of_prune rid now m u k = lookup_of_keep _ rid m.pending u k

-- A fresh record, committed, leaves every usage as it was.
current_usage-moved_fresh :
    (rid : String) (now : ℕ) (c : Charge) (m : BudgetManager) (kt : KeyType) (v : String)
    → NodupKeys m.pending
    → IsFresh now rid m
    → lookup rid (prune now m).committed ≡ none
    → lookup rid (prune now m).pending ≡ some c
    → current_usage now kt v (moved now rid c (prune now m)) ≡ current_usage now kt v (prune now m)
unfolding current_usage prune
current_usage-moved_fresh rid now c m kt v u fresh h k = omega (
  arith,
  current_usage-moved rid now m (prune now m) kt v h k,
  counted_again now (window m) kt v c (rw (pending_of_prune rid now m u k) at fresh),
)

pub commit-IsWithin :
    (rid : String) (now now' : ℕ) (m : BudgetManager)
    → NodupKeys m.pending
    → IsWithin now m
    → now ≤ now'
    → IsFresh now' rid m
    → IsWithin now' (commit rid now' m).1
commit-IsWithin rid now now' m u h le fresh kt v =
    elim (Option-cases (lookup rid (prune now' m).committed)) [
      | inl nc ↦ elim (Option-cases (lookup rid (prune now' m).pending)) [
        | inl np ↦ rw (commit_of_unknown rid now' m nc np) (prune-IsWithin now now' m h le kt v)
        | inr (c, p) ↦ rw (commit_of_pending rid now' m nc p) (
            Fits-of_le (limit_of kt (prune now' m).limits) _ _
              (omega (arith, current_usage-moved_fresh rid now' c m kt v u fresh nc p))
              (prune-IsWithin now now' m h le kt v))
      ]
      | inr (c, p) ↦ rw (commit_of_committed rid now' m p) (prune-IsWithin now now' m h le kt v)
    ]
