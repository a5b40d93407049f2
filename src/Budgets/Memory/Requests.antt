-- ===== src/Budgets/Memory/Requests.antt =====
-- One request: when its check passes, that it is charged once, and that both calls are idempotent.
use sudo_agent.Base.{
  ℕ, ◌+◌, ◌*◌, ◌≤◌, String, ◌≡◌, refl, true, none, some, arith, eq_iff, leb, Bool-cases, inl, inr,
  if◌then◌else◌,
}
use sudo_agent.Base.Int.{pos}
use sudo_agent.Base.Dict.{
  Dict, lookup, contains, insert, lookup-insert, lookup-keep, lookup-erase_self, lookup-keep-none,
}
use sudo_agent.Budgets.Common.{
  exceeded, ok, err, Charge, CheckResult, KeyType, by_agent, by_tool, over,
}
use sudo_agent.Budgets.Memory.{BudgetManager, window, prune, current_usage, check, commit}
use sudo_agent.Budgets.Memory.Outcomes.{moved, commit_of_pending}
use sudo_agent.Budgets.Memory.Spending.{counted, current_usage-prune}
use sudo_agent.Budgets.Memory.Enforcement.{
  limits-prune, current_usage-add_pending, current_usage-moved,
}
use sudo_agent.Budgets.Memory.Histories.{IsValid, prune-IsValid, check-IsValid}

-- The request is neither pending nor committed once stale records are gone.
abbrev pub IsNew : ℕ → String → BudgetManager → Type 0
IsNew now rid m =
    (lookup rid (prune now m).committed ≡ none) × (lookup rid (prune now m).pending ≡ none)

abbrev pub charge : String → String → ℕ → ℕ → Charge
charge agent tool n now = record { agent = agent; tool = tool; cost = n; ts = now }

abbrev pub accepted : String → String → String → ℕ → CheckResult
accepted rid agent tool n = record {
  request_id = rid;
  agent = agent;
  tool = tool;
  cost = n;
  accepted = true;
}

abbrev pub with_pending : String → Charge → BudgetManager → BudgetManager
with_pending rid c m = record m { pending = insert rid c m.pending }

module _ (rid agent tool : String) (n now : ℕ) (m : BudgetManager) where
  -- The check of a request that has no record once the stale ones are gone, by the tests that it makes
  pub check_of_new :
      IsNew now rid m
      → check rid agent tool (pos n) now m ≡ (
          if over m.limits.agent_limit (current_usage now by_agent agent m) n
          then (err (exceeded "agent budget exceeded" (some "agent")), prune now m)
          else if over m.limits.tool_limit (current_usage now by_tool tool m) n
          then (err (exceeded "tool budget exceeded" (some "tool")), prune now m)
          else (
            ok (accepted rid agent tool n),
            with_pending rid (charge agent tool n now) (prune now m),
          ))
  unfolding check
  check_of_new (nc, np) =
      elim (Bool-cases (over m.limits.agent_limit (current_usage now by_agent agent m) n)) [
        | inl a ↦ rw (nc, np, usages by_agent agent, usages by_tool tool, limits, a)
        | inr na ↦
            elim (Bool-cases (over m.limits.tool_limit (current_usage now by_tool tool m) n)) [
              | inl t ↦ rw (nc, np, usages by_agent agent, usages by_tool tool, limits, na, t)
              | inr nt ↦ rw (nc, np, usages by_agent agent, usages by_tool tool, limits, na, nt)
            ]
      ]
    where
      usages :
          (kt : KeyType) (v : String)
          → current_usage now kt v (prune now m) ≡ current_usage now kt v m
      usages kt v = current_usage-prune now kt v m

      limits : (prune now m).limits ≡ m.limits
      limits = limits-prune now m

pub lookup_of_prune_pending :
    (rid : String) (now : ℕ) (m : BudgetManager) (c : Charge)
    → IsValid m
    → lookup rid m.pending ≡ some c
    → now ≤ c.ts + window m * 2
    → lookup rid (prune now m).pending ≡ some c
unfolding prune
lookup_of_prune_pending rid now m c valid h le =
    ground (arith, lookup-keep (λ x. leb now (x.ts + window m * 2)) rid m.pending valid.pending)

lookup_of_prune_committed :
    (rid : String) (now : ℕ) (m : BudgetManager) (c : Charge)
    → IsValid m
    → lookup rid m.committed ≡ some c
    → now ≤ c.ts + window m
    → lookup rid (prune now m).committed ≡ some c
unfolding prune
lookup_of_prune_committed rid now m c valid h le =
    ground (arith, lookup-keep (λ x. leb now (x.ts + window m)) rid m.committed valid.committed)

pub lookup-insert_self :
    (rid : String) (c : Charge) (d : Dict Charge) → lookup rid (insert rid c d) ≡ some c
lookup-insert_self rid c d = ground (arith, lookup-insert rid rid c d, eq_iff rid rid)

-- A request that is pending passes every further check, whatever it asks for, and nothing is charged.
check_of_pending :
    (rid agent tool : String) (n now : ℕ) (m : BudgetManager) (c : Charge)
    → lookup rid (prune now m).pending ≡ some c
    → check rid agent tool (pos n) now m ≡ (ok (accepted rid agent tool n), prune now m)
unfolding check
check_of_pending rid agent tool n now m c p =
    elim (Bool-cases (contains rid (prune now m).committed)) [ inl e ↦ rw e | inr e ↦ rw (e, p) ]

pub committed_of_prune :
    (rid : String) (now : ℕ) (m : BudgetManager)
    → lookup rid m.committed ≡ none
    → lookup rid (prune now m).committed ≡ none
unfolding prune
committed_of_prune rid now m h = lookup-keep-none _ rid m.committed h

pub counted-prune :
    (now : ℕ) (kt : KeyType) (v : String) (c : Charge) (m : BudgetManager)
    → counted now (window (prune now m)) kt v c ≡ counted now (window m) kt v c
unfolding prune
counted-prune now kt v c m = refl

total_spend-moved :
    (now : ℕ) (rid : String) (c : Charge) (m : BudgetManager)
    → (moved now rid c (prune now (with_pending rid c (prune now m)))).total_spend
      ≡ (if m.spend_counter then m.total_spend + c.cost else m.total_spend)
unfolding prune
total_spend-moved now rid c m = refl

window-prune : (now : ℕ) (m : BudgetManager) → window (prune now m) ≡ window m
unfolding prune
window-prune now m = refl

module _ (rid agent tool : String) (n now : ℕ) (m : BudgetManager) (valid : IsValid m)
    (new : IsNew now rid m)
    (passed : (check rid agent tool (pos n) now m).0 ≡ ok (accepted rid agent tool n)) where
  -- A check that passes makes the charge pending.
  pub check-passed :
      (check rid agent tool (pos n) now m).1
      ≡ with_pending rid (charge agent tool n now) (prune now m)
  check-passed =
      elim (Bool-cases (over m.limits.agent_limit (current_usage now by_agent agent m) n)) [
        | inl a ↦ ground (arith, check_of_new rid agent tool n now m new)
        | inr na ↦
            elim (Bool-cases (over m.limits.tool_limit (current_usage now by_tool tool m) n)) [
              | inl t ↦ ground (arith, check_of_new rid agent tool n now m new)
              | inr nt ↦ ground (arith, check_of_new rid agent tool n now m new)
            ]
      ]

  with_pending-IsValid : IsValid (with_pending rid (charge agent tool n now) (prune now m))
  with_pending-IsValid = rw check-passed at (check-IsValid rid agent tool (pos n) now m valid)

  -- After a new request has passed its check in a well-formed manager: checked again within two
  -- windows it passes whatever it now asks for, and the manager only loses its stale records.
  pub check_again :
      (agent' tool' : String) (n' now' : ℕ)
      → now' ≤ now + m.window_seconds * 1000000 * 2
      → let s = (check rid agent tool (pos n) now m).1 in
        check rid agent' tool' (pos n') now' s ≡ (ok (accepted rid agent' tool' n'), prune now' s)
  check_again agent' tool' n' now' le = rw check-passed (
      check_of_pending rid agent' tool' n' now' _ (charge agent tool n now) (
        lookup_of_prune_pending rid now' _ (charge agent tool n now) with_pending-IsValid
          (lookup-insert_self rid _ _) (unfold prune in le)))

  -- After a new request has passed its check in a well-formed manager: the commit at the same
  -- instant charges it once. It succeeds, every usage is what it was before the check plus the cost
  -- where agent or tool match, the request is committed and no longer pending, and `total_spend`
  -- grows by the cost if it is kept.
  pub commit_after_check :
      let s = (check rid agent tool (pos n) now m).1 in
      let (r, t) = commit rid now s in
      (r ≡ ok tt)
      × ((kt : KeyType) (v : String)
          → current_usage now kt v t
            ≡ current_usage now kt v m + counted now (window m) kt v (charge agent tool n now))
      × (lookup rid t.pending ≡ none)
      × (lookup rid t.committed ≡ some (charge agent tool n now))
      × (t.total_spend ≡ (if m.spend_counter then m.total_spend + n else m.total_spend))
  commit_after_check = rw (check-passed, commit-eq) (refl, usages, absent, present, spend)
    where
      c : Charge
      c = charge agent tool n now

      s : BudgetManager
      s = with_pending rid c (prune now m)

      not_committed : lookup rid (prune now s).committed ≡ none
      not_committed = committed_of_prune rid now s new.0

      found : lookup rid (prune now s).pending ≡ some c
      found =
          lookup_of_prune_pending rid now s c with_pending-IsValid (lookup-insert_self rid c _)
            (omega arith)

      commit-eq : commit rid now s ≡ (ok tt, moved now rid c (prune now s))
      commit-eq = commit_of_pending rid now s not_committed found

      usages :
          (kt : KeyType) (v : String)
          → current_usage now kt v (moved now rid c (prune now s))
            ≡ current_usage now kt v m + counted now (window m) kt v c
      usages kt v = omega (
        arith,
        current_usage-moved rid now s (prune now s) kt v not_committed found,
        current_usage-prune now kt v s,
        current_usage-add_pending now kt v rid c (prune now m) new.1,
        current_usage-prune now kt v m,
        counted-prune now kt v c m,
      )

      absent : lookup rid (moved now rid c (prune now s)).pending ≡ none
      absent =
          lookup-erase_self rid (prune now s).pending
            (prune-IsValid now s with_pending-IsValid).pending

      present : lookup rid (moved now rid c (prune now s)).committed ≡ some c
      present = lookup-insert_self rid c (prune now s).committed

      spend :
          (moved now rid c (prune now s)).total_spend
          ≡ (if m.spend_counter then m.total_spend + n else m.total_spend)
      spend = total_spend-moved now rid c m
