-- ===== src/Approvals/Store/Rows.antt =====
-- What `expire_expired` does to each row.
use sudo_agent.Base.{ℕ, ◌+◌, String, ◌≡◌, refl, Option, none, some, [], ◌∷◌, arith, if◌then◌else◌}
use sudo_agent.Base.Dict.{Dict, lookup}
use sudo_agent.Approvals.Store.{Approval, is_stale, expire, expire_rows, rowcount}

abbrev pub expire_if_stale : ℕ → Option Approval → Option Approval
expire_if_stale now none = none
expire_if_stale now (some a) = some (if is_stale now a then expire now a else a)

pub lookup-expire_rows :
    (k : String) (now : ℕ) (rows : Dict Approval)
    → lookup k (expire_rows now rows) ≡ expire_if_stale now (lookup k rows)
unfolding expire_rows
lookup-expire_rows k now [] = refl
lookup-expire_rows k now ((j, a) ∷ rows) = ground (arith, lookup-expire_rows k now rows)

-- How many rows are pending past their expiration.
abbrev pub stale_count : ℕ → Dict Approval → ℕ
stale_count now [] = 0
stale_count now ((_, a) ∷ rows) = (if is_stale now a then 1 else 0) + stale_count now rows

pub rowcount-eq : (now : ℕ) (rows : Dict Approval) → rowcount now rows ≡ stale_count now rows
unfolding rowcount
rowcount-eq now [] = refl
rowcount-eq now ((_, a) ∷ rows) = ground (arith, rowcount-eq now rows)

pub stale_count-expire_rows :
    (now : ℕ) (rows : Dict Approval) → stale_count now (expire_rows now rows) ≡ 0
unfolding expire_rows
stale_count-expire_rows now [] = refl
stale_count-expire_rows now ((_, a) ∷ rows) = ground (arith, stale_count-expire_rows now rows)

-- A sweep that finds no stale row changes none.
pub expire_rows_of_current :
    (now : ℕ) (rows : Dict Approval) → stale_count now rows ≡ 0 → expire_rows now rows ≡ rows
unfolding expire_rows
expire_rows_of_current now [] h = refl
expire_rows_of_current now ((_, a) ∷ rows) h = ground (arith, expire_rows_of_current now rows)
