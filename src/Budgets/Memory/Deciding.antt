-- ===== src/Budgets/Memory/Deciding.antt =====
-- budgets.py, `BudgetManager.check`: when a new request passes, from the sums of what is on record.
use sudo_agent.Base.{
  ℕ, ◌+◌, ◌*◌, ◌<◌, String, ◌≡◌, ◌⊎◌, refl, true, false, Option, none, some, arith, Bool-cases,
  Option-cases, leb, if◌then◌else◌, inl, inr,
}
use sudo_agent.Base.Int.{pos}
use sudo_agent.Base.Dict.{Dict, NodupKeys, lookup, keep, lookup-keep, lookup-keep-none}
use sudo_agent.Budgets.Common.{
  exceeded, Result, ok, err, Charge, CheckResult, KeyType, by_agent, by_tool, over,
}
use sudo_agent.Budgets.Memory.{BudgetManager, window, prune, current_usage, check}
use sudo_agent.Budgets.Memory.Spending.{counted, spent, current_usage-eq-spent, current_usage-prune}
use sudo_agent.Budgets.Memory.Enforcement.{Fits, current_usage-add_pending}
use sudo_agent.Budgets.Memory.Histories.{IsValid}
use sudo_agent.Budgets.Memory.Requests.{
  IsNew, charge, accepted, with_pending, check_of_new, lookup-insert_self,
}

abbrev pub Exceeds : Option ℕ → ℕ → Type 0
Exceeds none usage = ⊥
Exceeds (some limit) usage = limit < usage

-- Every record of the request is too old to be kept: a committed one by more than a window, a pending
-- one by more than two.
abbrev pub HasNoRecord : ℕ → String → BudgetManager → Type 0
HasNoRecord now rid m =
    ((c : Charge) → lookup rid m.committed ≡ some c → c.ts + m.window_seconds * 1000000 < now)
    × ((c : Charge) → lookup rid m.pending ≡ some c → c.ts + m.window_seconds * 1000000 * 2 < now)

-- What the records of the last window sum up to
abbrev pub usage_at : ℕ → KeyType → String → BudgetManager → ℕ
usage_at now kt v m =
    spent now (m.window_seconds * 1000000) kt v m.committed
    + spent now (m.window_seconds * 1000000) kt v m.pending

module _ (rid agent tool : String) (n now : ℕ) (m : BudgetManager) where
  -- How a check may end: with room for the cost under both limits, and only then, it is accepted and its
  -- cost counts from now on; otherwise the error names the limit that it would exceed, the agent's
  -- before the tool's, and nothing is charged.
  abbrev pub Decides : Result CheckResult × BudgetManager → Type 0
  Decides (ok r, s) =
      (r ≡ accepted rid agent tool n)
      × Fits m.limits.agent_limit (usage_at now by_agent agent m + n)
      × Fits m.limits.tool_limit (usage_at now by_tool tool m + n)
      × (lookup rid s.pending ≡ some (charge agent tool n now))
      × ((kt : KeyType) (v : String)
          → usage_at now kt v s
            ≡ usage_at now kt v m
              + counted now (m.window_seconds * 1000000) kt v (charge agent tool n now))
  Decides (err e, s) =
      (((e ≡ exceeded "agent budget exceeded" (some "agent"))
          × Exceeds m.limits.agent_limit (usage_at now by_agent agent m + n))
        ⊎ ((e ≡ exceeded "tool budget exceeded" (some "tool"))
            × Fits m.limits.agent_limit (usage_at now by_agent agent m + n)
            × Exceeds m.limits.tool_limit (usage_at now by_tool tool m + n)))
      × (lookup rid s.pending ≡ none)
      × ((kt : KeyType) (v : String) → usage_at now kt v s ≡ usage_at now kt v m)

over-Exceeds : (l : Option ℕ) (u n : ℕ) → over l u n ≡ true → Exceeds l (u + n)
over-Exceeds none u n h = absurd (cc h)
over-Exceeds (some l) u n h = ground arith

over-Fits : (l : Option ℕ) (u n : ℕ) → over l u n ≡ false → Fits l (u + n)
over-Fits none u n h = tt
over-Fits (some l) u n h = ground arith

kept_none :
    (age now : ℕ) (rid : String) (d : Dict Charge)
    → NodupKeys d
    → ((c : Charge) → lookup rid d ≡ some c → c.ts + age < now)
    → lookup rid (keep (λ c. leb now (c.ts + age)) d) ≡ none
kept_none age now rid d u h = elim (Option-cases (lookup rid d)) [
  | inl e ↦ lookup-keep-none _ rid d e
  | inr (c, e) ↦ ground (arith, lookup-keep (λ c. leb now (c.ts + age)) rid d u, h c e)
]

IsNew-of_HasNoRecord :
    (rid : String) (now : ℕ) (m : BudgetManager)
    → IsValid m
    → HasNoRecord now rid m
    → IsNew now rid m
unfolding prune
IsNew-of_HasNoRecord rid now m valid (c, p) = (
  kept_none (window m) now rid m.committed valid.committed c,
  kept_none (window m * 2) now rid m.pending valid.pending p,
)

module _ (rid agent tool : String) (n now : ℕ) (m : BudgetManager) where
  -- In a well-formed manager, the check of a request all of whose records are too old to be kept: it is
  -- accepted if and only if the costs on record of the last window, committed and pending, and its own
  -- are within the limit both for its agent and for its tool. Then it is pending and counts with its
  -- cost. Otherwise the error names the limit that would be exceeded, the agent's before the tool's,
  -- the request is not pending and every usage is as before.
  pub check_new-Decides :
      IsValid m
      → HasNoRecord now rid m
      → Decides rid agent tool n now m (check rid agent tool (pos n) now m)
  unfolding prune
  check_new-Decides valid none_kept =
      elim (Bool-cases (over m.limits.agent_limit (usage_at now by_agent agent m) n)) [
        | inl a ↦
            rw (by_tests, a)
              (inl (refl, over-Exceeds m.limits.agent_limit _ n a), new.1, usage-prune)
        | inr na ↦ elim (Bool-cases (over m.limits.tool_limit (usage_at now by_tool tool m) n)) [
          | inl t ↦
              rw (by_tests, na, t)
                (
                  inr (
                    refl,
                    over-Fits m.limits.agent_limit _ n na,
                    over-Exceeds m.limits.tool_limit _ n t,
                  ),
                  new.1,
                  usage-prune,
                )
          | inr nt ↦
              rw (by_tests, na, nt)
                (
                  refl,
                  over-Fits m.limits.agent_limit _ n na,
                  over-Fits m.limits.tool_limit _ n nt,
                  lookup-insert_self rid (charge agent tool n now) (prune now m).pending,
                  usage-add,
                )
        ]
      ]
    where
      new : IsNew now rid m
      new = IsNew-of_HasNoRecord rid now m valid none_kept

      usage-eq : (kt : KeyType) (v : String) → current_usage now kt v m ≡ usage_at now kt v m
      usage-eq kt v = current_usage-eq-spent now kt v m

      by_tests : check rid agent tool (pos n) now m ≡ (
          if over m.limits.agent_limit (usage_at now by_agent agent m) n
          then (err (exceeded "agent budget exceeded" (some "agent")), prune now m)
          else if over m.limits.tool_limit (usage_at now by_tool tool m) n
          then (err (exceeded "tool budget exceeded" (some "tool")), prune now m)
          else (
            ok (accepted rid agent tool n),
            with_pending rid (charge agent tool n now) (prune now m),
          ))
      by_tests =
          rw (← usage-eq by_agent agent, ← usage-eq by_tool tool)
            (check_of_new rid agent tool n now m new)

      usage-prune :
          (kt : KeyType) (v : String) → usage_at now kt v (prune now m) ≡ usage_at now kt v m
      usage-prune kt v = omega (
        arith,
        current_usage-eq-spent now kt v (prune now m),
        current_usage-prune now kt v m,
        current_usage-eq-spent now kt v m,
      )

      usage-add :
          (kt : KeyType) (v : String)
          → usage_at now kt v (with_pending rid (charge agent tool n now) (prune now m))
            ≡ usage_at now kt v m
              + counted now (m.window_seconds * 1000000) kt v (charge agent tool n now)
      usage-add kt v = omega (
        arith,
        current_usage-eq-spent now kt v (with_pending rid (charge agent tool n now) (prune now m)),
        current_usage-add_pending now kt v rid (charge agent tool n now) (prune now m) new.1,
        current_usage-eq-spent now kt v (prune now m),
        usage-prune kt v,
      )
