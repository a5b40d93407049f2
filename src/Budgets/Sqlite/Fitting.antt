-- ===== src/Budgets/Sqlite/Fitting.antt =====
-- budgets.py, the tables of `SQLiteBudgetManager`: where all costs together fit in a column, no insert
-- and no sum overflows.
use sudo_agent.Base.{
  ℕ, ◌+◌, ◌*◌, ◌^◌, ◌≤◌, ◌<◌, String, ◌≡◌, refl, true, some, [], ◌∷◌, arith, leb, Bool,
}
use sudo_agent.Base.Dict.{Dict, lookup, insert, erase, keep}
use sudo_agent.Budgets.Common.{ok, Charge, KeyType}
use sudo_agent.Budgets.Sqlite.{
  Database, window, prune_with_conn, fits_integer, costs_where, sum_where, usage,
}

abbrev pub total : Dict Charge → ℕ
total [] = 0
total ((_, c) ∷ rows) = c.cost + total rows

-- All costs that are on record
abbrev pub on_record : Database → ℕ
on_record s = total s.pending + total s.committed

costs_where_le :
    (now w : ℕ) (kt : KeyType) (v : String) (d : Dict Charge) → costs_where now w kt v d ≤ total d
unfolding costs_where
costs_where_le now w kt v [] = omega arith
costs_where_le now w kt v ((_, c) ∷ d) = ground (arith, costs_where_le now w kt v d)

sum_where_of_fitting :
    (now w : ℕ) (kt : KeyType) (v : String) (d : Dict Charge)
    → total d < 2 ^ 63
    → sum_where now w kt v d ≡ ok (costs_where now w kt v d)
unfolding sum_where
sum_where_of_fitting now w kt v d h = ground (arith, costs_where_le now w kt v d)

total-keep_le : (p : Charge → Bool) (d : Dict Charge) → total (keep p d) ≤ total d
total-keep_le p [] = omega arith
total-keep_le p ((_, c) ∷ d) = ground (arith, total-keep_le p d)

pub total-insert_le :
    (k : String) (c : Charge) (d : Dict Charge) → total (insert k c d) ≤ total d + c.cost
total-insert_le k c [] = omega arith
total-insert_le k c ((j, x) ∷ d) = ground (arith, total-insert_le k c d)

pub total-erase :
    (k : String) (c : Charge) (d : Dict Charge)
    → lookup k d ≡ some c
    → total (erase k d) + c.cost ≡ total d
total-erase k c [] h = absurd (cc h)
total-erase k c ((j, x) ∷ d) h = ground (arith, total-erase k c d)

pub on_record-prune_le : (now : ℕ) (s : Database) → on_record (prune_with_conn now s) ≤ on_record s
unfolding prune_with_conn
on_record-prune_le now s = omega (
  arith,
  total-keep_le (λ c. leb now (c.ts + window s)) s.committed,
  total-keep_le (λ c. leb now (c.ts + window s * 2)) s.pending,
)

pub usage_of_fitting :
    (now : ℕ) (kt : KeyType) (v : String) (s : Database)
    → on_record s < 2 ^ 63
    → usage now kt v s
      ≡ ok (costs_where now (window s) kt v s.committed + costs_where now (window s) kt v s.pending)
unfolding usage
usage_of_fitting now kt v s h =
    rw
      (
        sum_where_of_fitting now (window s) kt v s.committed (omega arith),
        sum_where_of_fitting now (window s) kt v s.pending (omega arith),
      )
      refl

pub fits_integer_of_lt : (n : ℕ) → n < 2 ^ 63 → fits_integer n ≡ true
fits_integer_of_lt n h = ground arith
