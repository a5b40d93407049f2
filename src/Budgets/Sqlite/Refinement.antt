-- ===== src/Budgets/Sqlite/Refinement.antt =====
-- The durable manager answers every history of calls as the in-memory one does, although it keeps
-- stale records where a call raised.
use sudo_agent.Base.{
  ℕ, ◌+◌, ◌*◌, ◌^◌, ◌<◌, true, ◌≤◌, String, ◌≡◌, refl, sym, ap, ◌∙◌, Option, none, some, [], ◌∷◌,
  arith, leb, Bool-cases, Option-cases, inl, inr,
}
use sudo_agent.Base.Int.{pos}
use sudo_agent.Base.Dict.{Dict, lookup, insert, erase, keep-keep}
use sudo_agent.Budgets.Common.{state_error, Result, ok, err, Charge, KeyType, by_agent, by_tool}
use sudo_agent.Budgets.Memory
use sudo_agent.Budgets.Memory.{BudgetManager}
use sudo_agent.Budgets.Memory.Outcomes
use sudo_agent.Budgets.Memory.Spending.{spent, current_usage-eq-spent}
use sudo_agent.Budgets.Sqlite.{
  Database, window, prune_with_conn, costs_where, usage, fits_integer, check, commit,
}
use sudo_agent.Budgets.Sqlite.Fitting.{
  on_record, usage_of_fitting, total-erase, on_record-prune_le, fits_integer_of_lt,
}

costs_where-eq-spent :
    (now w : ℕ) (kt : KeyType) (v : String) (d : Dict Charge)
    → costs_where now w kt v d ≡ spent now w kt v d
unfolding costs_where
costs_where-eq-spent now w kt v [] = refl
costs_where-eq-spent now w kt v ((_, c) ∷ d) = ground (arith, costs_where-eq-spent now w kt v d)

-- The database as the manager that it stands for, with a counter of its own.
abbrev pub as_manager : Option String → ℕ → Database → BudgetManager
as_manager key spend s = record {
  limits = s.limits;
  budget_key = key;
  window_seconds = s.window_seconds;
  spend_counter = s.spend_counter;
  pending = s.pending;
  committed = s.committed;
  total_spend = spend;
}

usage-eq :
    (now : ℕ) (kt : KeyType) (v : String) (key : Option String) (spend : ℕ) (s : Database)
    → on_record s < 2 ^ 63
    → usage now kt v s ≡ ok (Memory.current_usage now kt v (as_manager key spend s))
usage-eq now kt v key spend s fitting =
    rw
      (
        usage_of_fitting now kt v s fitting,
        current_usage-eq-spent,
        costs_where-eq-spent now (window s) kt v s.committed,
        costs_where-eq-spent now (window s) kt v s.pending,
      )
      refl

module _ (rid : String) (now : ℕ) (s : Database) where
  pub commit_of_committed :
      {c : Charge}
      → lookup rid (prune_with_conn now s).committed ≡ some c
      → commit rid now s ≡ (ok tt, prune_with_conn now s)
  unfolding commit
  commit_of_committed h = rw h

  pub commit_of_unknown :
      lookup rid (prune_with_conn now s).committed ≡ none
      → lookup rid (prune_with_conn now s).pending ≡ none
      → commit rid now s ≡ (err (state_error "pending check not found for commit"), s)
  unfolding commit
  commit_of_unknown h k = rw (h, k)

  pub commit_of_pending :
      {c : Charge}
      → on_record s < 2 ^ 63
      → lookup rid (prune_with_conn now s).committed ≡ none
      → lookup rid (prune_with_conn now s).pending ≡ some c
      → commit rid now s ≡ (
        ok tt,
        record (prune_with_conn now s) {
          committed = insert rid (record c { ts = now }) (prune_with_conn now s).committed;
          pending = erase rid (prune_with_conn now s).pending;
        },
      )
  unfolding commit
  commit_of_pending {c} fitting h k = elim (Bool-cases (prune_with_conn now s).spend_counter) [
    | inl g ↦ rw (h, k, g, fits, h)
    | inr g ↦ rw (h, k, g, fits, h)
  ]
    where
      fits : fits_integer c.cost ≡ true
      fits = fits_integer_of_lt c.cost (
          omega
            (arith, total-erase rid c (prune_with_conn now s).pending k, on_record-prune_le now s))

-- How one call ended, from the pruned manager `m₁`: alike, with the database as the manager, or
-- with the database rolled back to `s`.
abbrev pub Agrees :
    {A : Type 0}
    → Database
    → BudgetManager
    → Result A × Database
    → Result A × BudgetManager
    → Type 0
Agrees s m₁ (ok a, s') (r, m') = (r ≡ ok a) × (m' ≡ as_manager m'.budget_key m'.total_spend s')
Agrees s m₁ (err e, s') (r, m') = (r ≡ err e) × (s' ≡ s) × (m' ≡ m₁)

module _ (now : ℕ) (s : Database) (m : BudgetManager) (key : Option String) (spend : ℕ)
    (same : Memory.prune now m ≡ as_manager key spend (prune_with_conn now s)) where
  pub check-Agrees :
      (rid agent tool : String) (n : ℕ)
      → on_record s + n < 2 ^ 63
      → Agrees s
          (Memory.prune now m)
          (check rid agent tool (pos n) now s)
          (Memory.check rid agent tool (pos n) now m)
  unfolding check Memory.check
  check-Agrees rid agent tool n fitting = rw same (
      ground (
        arith,
        usage-eq now by_agent agent key spend (prune_with_conn now s) fits,
        usage-eq now by_tool tool key spend (prune_with_conn now s) fits,
        fits_integer_of_lt n (omega arith),
      ))
    where
      fits : on_record (prune_with_conn now s) < 2 ^ 63
      fits = omega (arith, on_record-prune_le now s)

  pub commit-Agrees :
      (rid : String)
      → on_record s < 2 ^ 63
      → Agrees s (Memory.prune now m) (commit rid now s) (Memory.commit rid now m)
  unfolding commit Memory.commit
  commit-Agrees rid fitting = elim (Option-cases (lookup rid (prune_with_conn now s).committed)) [
    | inr (c, e) ↦
        rw
          (
            commit_of_committed rid now s e,
            Outcomes.commit_of_committed rid now m {c = c} (rw same e),
          )
          (refl, rw same)
    | inl e ↦ elim (Option-cases (lookup rid (prune_with_conn now s).pending)) [
      | inl f ↦
          rw
            (
              commit_of_unknown rid now s e f,
              Outcomes.commit_of_unknown rid now m (rw same e) (rw same f),
            )
            (refl, refl, refl)
      | inr (c, f) ↦
          rw
            (
              commit_of_pending rid now s fitting e f,
              Outcomes.commit_of_pending rid now m {c = c} (rw same e) (rw same f),
            )
            (refl, rw same)
    ]
  ]

-- From `t` on, the two prune to the same records.
abbrev pub Sim : ℕ → Database → BudgetManager → Type 0
Sim t s m =
    (now : ℕ)
    → t ≤ now
    → Memory.prune now m ≡ as_manager m.budget_key m.total_spend (prune_with_conn now s)

prune-prune :
    (now now' : ℕ) (m : BudgetManager)
    → now ≤ now'
    → Memory.prune now' (Memory.prune now m) ≡ Memory.prune now' m
unfolding Memory.prune
prune-prune now now' m le = rw (
  keep-keep (λ c. leb now' (c.ts + Memory.window m)) (λ c. leb now (c.ts + Memory.window m))
      m.committed (λ c h. ground arith),
  keep-keep (λ c. leb now' (c.ts + Memory.window m * 2)) (λ c. leb now (c.ts + Memory.window m * 2))
      m.pending (λ c h. ground arith),
)

-- Both prune alike, whatever the counter.
pub prune-as_manager :
    (now : ℕ) (key : Option String) (spend : ℕ) (s : Database)
    → Memory.prune now (as_manager key spend s) ≡ as_manager key spend (prune_with_conn now s)
unfolding Memory.prune prune_with_conn
prune-as_manager now key spend s = refl

keys-prune :
    (now : ℕ) (m : BudgetManager)
    → ((Memory.prune now m).budget_key ≡ m.budget_key)
      × ((Memory.prune now m).total_spend ≡ m.total_spend)
unfolding Memory.prune
keys-prune now m = (refl, refl)

pub Sim-Agrees :
    {A : Type 0} (t now : ℕ) (s : Database) (m : BudgetManager)
    → Sim t s m
    → t ≤ now
    → (a : Result A × Database) (b : Result A × BudgetManager) → Agrees s (Memory.prune now m) a b
    → (a.0 ≡ b.0) × Sim now a.1 b.1
Sim-Agrees t now s m sim le (ok x, s') (r, m') (e, f) =
    (sym e, λ u h. ap (Memory.prune u) f ∙ prune-as_manager u m'.budget_key m'.total_spend s')
Sim-Agrees t now s m sim le (err x, s') (r, m') (e, f, g) = (
  sym e,
  λ u h.
      rw (f, g, prune-prune now u m h, (keys-prune now m).0, (keys-prune now m).1)
        (sim u (omega arith)),
)
