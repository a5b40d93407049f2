-- ===== src/Budgets/Memory/Examples.antt =====
-- Runs of the in-memory manager, and its theorems at concrete data.
use sudo_agent.Base.{◌+◌, ◌≡◌, refl, String, true, none, some, List, [], ◌∷◌, arith, ℕ}
use sudo_agent.Base.Int.{pos}
use sudo_agent.Base.Dict.{lookup}
use sudo_agent.Budgets.Common.{ok, err, exceeded, KeyType, by_agent, by_tool}
use sudo_agent.Budgets.Memory.{BudgetManager, window, init, check, commit, prune, current_usage}
use sudo_agent.Budgets.Memory.Spending.{counted}
use sudo_agent.Budgets.Memory.Enforcement.{IsWithin}
use sudo_agent.Budgets.Memory.Histories.{
  IsValid, Call, checks, commits, run, last_time, run-IsWithin,
}
use sudo_agent.Budgets.Memory.Deciding.{Decides, check_new-Decides}
use sudo_agent.Budgets.Memory.Requests.{charge, accepted, check_again, commit_after_check}
use sudo_agent.Budgets.Memory.Stale.{commit_of_stale_exceeds}

-- Limits of 10 for an agent and 8 for a tool, over one minute.
abbrev start : BudgetManager
start = record {
  limits = record { agent_limit = some 10; tool_limit = some 8 };
  budget_key = none;
  window_seconds = 60;
  spend_counter = true;
  pending = [];
  committed = [];
  total_spend = 0;
}

init-start : init (some (pos 10)) (some (pos 8)) (pos 60) none true ≡ ok start
unfolding init
init-start = refl

start-IsWithin : IsWithin 0 start
unfolding current_usage
start-IsWithin by_agent v = omega arith
start-IsWithin by_tool v = omega arith

start-IsValid : IsValid start
start-IsValid = record { pending = tt; committed = tt }

abbrev minute : ℕ
minute = 60000000

-- The second check is refused by the tool's limit, the third by the agent's.
abbrev calls : List Call
calls =
    checks "r1" "bot" "pay" (pos 6) 5
    ∷ commits "r1" 5
    ∷ checks "r2" "bot" "pay" (pos 3) 6
    ∷ checks "r3" "bot" "mail" (pos 5) 7
    ∷ checks "r4" "bot" "mail" (pos 4) minute
    ∷ []

third_refused :
    (check "r3" "bot" "mail"
      (pos 5)
      7
      (run (checks "r1" "bot" "pay" (pos 6) 5 ∷ commits "r1" 5 ∷ []) start)).0
    ≡ err (exceeded "agent budget exceeded" (some "agent"))
unfolding check commit prune current_usage
third_refused = refl

run-IsWithin_example : IsWithin (last_time 0 calls) (run calls start)
unfolding check commit prune current_usage
run-IsWithin_example = run-IsWithin 0 calls start start-IsValid start-IsWithin (omega arith)

check_new-Decides_example :
    Decides "r1" "bot" "pay" 6 5 start (check "r1" "bot" "pay" (pos 6) 5 start)
check_new-Decides_example =
    check_new-Decides "r1" "bot" "pay" 6 5 start start-IsValid
      (λ c h. absurd (cc h), λ c h. absurd (cc h))

check_again_example :
    let s = (check "r1" "bot" "pay" (pos 6) 5 start).1 in
    check "r1" "bot" "pay" (pos 9) minute s ≡ (ok (accepted "r1" "bot" "pay" 9), prune minute s)
unfolding check current_usage prune
check_again_example =
    check_again "r1" "bot" "pay" 6 5 start start-IsValid (refl, refl) refl "bot" "pay" 9 minute
      (omega arith)

commit_after_check_example :
    let s = (check "r1" "bot" "pay" (pos 6) 5 start).1 in
    let (r, t) = commit "r1" 5 s in
    (r ≡ ok tt)
    × ((kt : KeyType) (v : String)
        → current_usage 5 kt v t
          ≡ current_usage 5 kt v start + counted 5 (window start) kt v (charge "bot" "pay" 6 5))
    × (lookup "r1" t.pending ≡ none)
    × (lookup "r1" t.committed ≡ some (charge "bot" "pay" 6 5))
    × (t.total_spend ≡ 6)
unfolding check current_usage prune
commit_after_check_example =
    commit_after_check "r1" "bot" "pay" 6 5 start start-IsValid (refl, refl) refl

-- Checked at 0, with a second check that takes the whole limit once the first counts no more.
abbrev overbooked : BudgetManager
overbooked = record start {
  pending = ("r1", charge "bot" "pay" 8 0) ∷ ("r2", charge "bot" "mail" 8 (minute + 1)) ∷ [];
}

overbooked_reached :
    run
      (checks "r1" "bot" "pay" (pos 8) 0 ∷ checks "r2" "bot" "mail" (pos 8) (minute + 1) ∷ [])
      start
    ≡ overbooked
unfolding check prune current_usage
overbooked_reached = refl

commit_of_stale_exceeds_example :
    ((commit "r1" (minute + 2) overbooked).0 ≡ ok tt)
    × (¬ IsWithin (minute + 2) (commit "r1" (minute + 2) overbooked).1)
unfolding current_usage
commit_of_stale_exceeds_example =
    commit_of_stale_exceeds "r1" (minute + 2) overbooked (charge "bot" "pay" 8 0)
      (record { pending = (refl, (refl, tt)); committed = tt }) refl refl (omega arith)
      (omega arith) refl
