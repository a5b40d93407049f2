-- ===== src/Budgets/Sqlite/Examples.antt =====
-- The durable manager's theorem at concrete data.
use sudo_agent.Base.{◌≡◌, ◌^◌, refl, true, none, some, List, [], ◌∷◌, arith}
use sudo_agent.Base.Int.{pos, negsuc}
use sudo_agent.Budgets.Memory.Histories.{Call, checks, commits}
use sudo_agent.Budgets.Common.{err, overflow_error, operational_error}
use sudo_agent.Budgets.Sqlite.{Database, prune_with_conn, check}
use sudo_agent.Budgets.Sqlite.Refinement.{as_manager}
use sudo_agent.Budgets.Sqlite.Histories.{memory_answers, sqlite_answers, sqlite_answers-eq}

abbrev tables : Database
tables = record {
  limits = record { agent_limit = some 10; tool_limit = none };
  window_seconds = 60;
  spend_counter = true;
  pending = [];
  committed = [];
}

-- The third call is refused, and in the database its pruning is rolled back.
abbrev calls : List Call
calls =
    checks "r1" "bot" "pay" (pos 8) 5
    ∷ commits "r1" 6
    ∷ checks "r2" "bot" "pay" (pos 11) 60000007
    ∷ checks "r3" "bot" "pay" (negsuc 0) 60000008
    ∷ commits "r1" 60000009
    ∷ []

sqlite_answers-eq_example :
    sqlite_answers calls tables ≡ memory_answers calls (as_manager none 0 tables)
sqlite_answers-eq_example = sqlite_answers-eq 0 calls tables none 0 (omega arith) (omega arith)

-- Costs that fit one by one and not together: the database raises where the sum is asked for.
abbrev halves : Database
halves = record tables {
  limits = record { agent_limit = none; tool_limit = none };
  committed =
      ("r1", record { agent = "bot"; tool = "pay"; cost = 2 ^ 62; ts = 5 })
      ∷ ("r2", record { agent = "bot"; tool = "pay"; cost = 2 ^ 62; ts = 5 })
      ∷ [];
}

sum_overflows : (check "r3" "bot" "pay" (pos 1) 5 halves).0 ≡ err operational_error
unfolding check prune_with_conn
sum_overflows = refl

cost_overflows :
    (check "r3" "bot" "pay" (pos (2 ^ 63)) 5 (record halves { committed = [] })).0
    ≡ err overflow_error
unfolding check prune_with_conn
cost_overflows = refl
