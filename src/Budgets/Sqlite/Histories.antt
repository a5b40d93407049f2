-- ===== src/Budgets/Sqlite/Histories.antt =====
-- Every timely history gets the same answers from the durable and from the in-memory manager.
use sudo_agent.Base.{
  ℕ, ◌+◌, ◌^◌, ◌<◌, Option-cases, ◌≤◌, ◌≡◌, Option, List, [], ◌∷◌, ◌⊎◌, inl, inr, refl, arith,
  String,
}
use sudo_agent.Base.Int.{ℤ, pos, negsuc}
use sudo_agent.Budgets.Common.{Result, CheckResult}
use sudo_agent.Budgets.Memory
use sudo_agent.Budgets.Memory.{BudgetManager}
use sudo_agent.Budgets.Memory.Histories.{Call, checks, commits, time, perform}
use sudo_agent.Base.Dict.{lookup}
use sudo_agent.Budgets.Sqlite.{Database, prune_with_conn, check, commit}
use sudo_agent.Budgets.Sqlite.Fitting.{on_record, on_record-prune_le, total-insert_le, total-erase}
use sudo_agent.Budgets.Sqlite.Refinement.{
  commit_of_committed, commit_of_unknown, commit_of_pending, as_manager, check-Agrees,
  commit-Agrees, Sim, Sim-Agrees, prune-as_manager,
}

abbrev pub Answer : Type 0
Answer = Result CheckResult ⊎ Result Unit

-- What one call returns or raises, from either manager.
abbrev pub memory_answer : Call → BudgetManager → Answer
memory_answer (checks rid agent tool cost now) m = inl (Memory.check rid agent tool cost now m).0
memory_answer (commits rid now) m = inr (Memory.commit rid now m).0

abbrev pub sqlite_answer : Call → Database → Answer
sqlite_answer (checks rid agent tool cost now) s = inl (check rid agent tool cost now s).0
sqlite_answer (commits rid now) s = inr (commit rid now s).0

abbrev pub sqlite_perform : Call → Database → Database
sqlite_perform (checks rid agent tool cost now) s = (check rid agent tool cost now s).1
sqlite_perform (commits rid now) s = (commit rid now s).1

abbrev pub memory_answers : List Call → BudgetManager → List Answer
memory_answers [] m = []
memory_answers (c ∷ calls) m = memory_answer c m ∷ memory_answers calls (perform c m)

abbrev pub sqlite_answers : List Call → Database → List Answer
sqlite_answers [] s = []
sqlite_answers (c ∷ calls) s = sqlite_answer c s ∷ sqlite_answers calls (sqlite_perform c s)

-- The clock does not go back.
abbrev pub IsMonotone : ℕ → List Call → Type 0
IsMonotone t [] = Unit
IsMonotone t (c ∷ calls) = (t ≤ time c) × IsMonotone (time c) calls

Sim-later : (t now : ℕ) (s : Database) (m : BudgetManager) → t ≤ now → Sim t s m → Sim now s m
Sim-later t now s m le sim u h = sim u (omega arith)

-- What a call may add to the costs on record
abbrev pub asked : Call → ℕ
asked (checks rid agent tool (pos n) now) = n
asked (checks rid agent tool (negsuc n) now) = 0
asked (commits rid now) = 0

abbrev pub all_asked : List Call → ℕ
all_asked [] = 0
all_asked (c ∷ calls) = asked c + all_asked calls

check-on_record :
    (rid agent tool : String) (n now : ℕ) (s : Database)
    → on_record (check rid agent tool (pos n) now s).1 ≤ on_record s + n
unfolding check
check-on_record rid agent tool n now s = ground (
  arith,
  on_record-prune_le now s,
  total-insert_le rid (record { agent = agent; tool = tool; cost = n; ts = now })
      (prune_with_conn now s).pending,
)

commit-on_record :
    (rid : String) (now : ℕ) (s : Database)
    → on_record s < 2 ^ 63
    → on_record (commit rid now s).1 ≤ on_record s
commit-on_record rid now s fitting =
    elim (Option-cases (lookup rid (prune_with_conn now s).committed)) [
      | inr (c, e) ↦ rw (commit_of_committed rid now s e) (on_record-prune_le now s)
      | inl e ↦ elim (Option-cases (lookup rid (prune_with_conn now s).pending)) [
        | inl f ↦ rw (commit_of_unknown rid now s e f) (omega arith)
        | inr (c, f) ↦ rw (commit_of_pending rid now s fitting e f) (
            omega (
              arith,
              on_record-prune_le now s,
              total-insert_le rid (record c { ts = now }) (prune_with_conn now s).committed,
              total-erase rid c (prune_with_conn now s).pending f,
            ))
      ]
    ]

perform-on_record :
    (c : Call) (s : Database)
    → on_record s + asked c < 2 ^ 63
    → on_record (sqlite_perform c s) ≤ on_record s + asked c
unfolding check
perform-on_record (checks rid agent tool (pos n) now) s h = check-on_record rid agent tool n now s
perform-on_record (checks rid agent tool (negsuc n) now) s h = omega arith
perform-on_record (commits rid now) s h = omega (arith, commit-on_record rid now s (omega arith))

check-Sim :
    (t : ℕ) (rid agent tool : String) (cost : ℤ) (now : ℕ) (s : Database) (m : BudgetManager)
    → Sim t s m
    → t ≤ now
    → on_record s + asked (checks rid agent tool cost now) < 2 ^ 63
    → ((check rid agent tool cost now s).0 ≡ (Memory.check rid agent tool cost now m).0)
      × Sim now (check rid agent tool cost now s).1 (Memory.check rid agent tool cost now m).1
unfolding check Memory.check
check-Sim t rid agent tool (negsuc n) now s m sim le fitting = (refl, Sim-later t now s m le sim)
check-Sim t rid agent tool (pos n) now s m sim le fitting =
    Sim-Agrees t now s m sim le (check rid agent tool (pos n) now s)
      (Memory.check rid agent tool (pos n) now m)
      (check-Agrees now s m m.budget_key m.total_spend (sim now le) rid agent tool n fitting)

commit-Sim :
    (t : ℕ) (rid : String) (now : ℕ) (s : Database) (m : BudgetManager)
    → Sim t s m
    → t ≤ now
    → on_record s < 2 ^ 63
    → ((commit rid now s).0 ≡ (Memory.commit rid now m).0)
      × Sim now (commit rid now s).1 (Memory.commit rid now m).1
commit-Sim t rid now s m sim le fitting =
    Sim-Agrees t now s m sim le (commit rid now s) (Memory.commit rid now m)
      (commit-Agrees now s m m.budget_key m.total_spend (sim now le) rid fitting)

answers_of_Sim :
    (t : ℕ) (calls : List Call) (s : Database) (m : BudgetManager)
    → Sim t s m
    → IsMonotone t calls
    → on_record s + all_asked calls < 2 ^ 63
    → sqlite_answers calls s ≡ memory_answers calls m
answers_of_Sim t [] s m sim mono fitting = refl
answers_of_Sim t (checks rid agent tool cost now ∷ calls) s m sim (le, mono) fitting =
    let c = checks rid agent tool cost now in
    let step = check-Sim t rid agent tool cost now s m sim le (omega arith) in
    cc (
      step.0,
      answers_of_Sim now calls (check rid agent tool cost now s).1
          (Memory.check rid agent tool cost now m).1 step.1 mono
          (omega (arith, perform-on_record c s (omega arith))),
    )
answers_of_Sim t (commits rid now ∷ calls) s m sim (le, mono) fitting =
    let step = commit-Sim t rid now s m sim le (omega arith) in
    cc (
      step.0,
      answers_of_Sim now calls (commit rid now s).1 (Memory.commit rid now m).1 step.1 mono
          (omega (arith, perform-on_record (commits rid now) s (omega arith))),
    )

-- From the same records and limits, the durable manager returns and raises, call by call, what the
-- in-memory manager does, for any calls under a clock that does not go back, where all costs on record
-- and all that the checks ask for add up to less than 2^63, the bound of an integer of SQLite.
pub sqlite_answers-eq :
    (t : ℕ) (calls : List Call) (s : Database) (key : Option String) (spend : ℕ)
    → IsMonotone t calls
    → on_record s + all_asked calls < 2 ^ 63
    → sqlite_answers calls s ≡ memory_answers calls (as_manager key spend s)
sqlite_answers-eq t calls s key spend mono fitting =
    answers_of_Sim t calls s (as_manager key spend s) (λ now h. prune-as_manager now key spend s)
      mono fitting
