-- ===== src/Budgets/Memory/Spending.antt =====
-- The usage that `_current_usage` accumulates, as a plain sum over the records of a dict.
use sudo_agent.Base.{
  ℕ, ◌+◌, ◌*◌, ◌≤◌, String, ◌≡◌, refl, none, some, [], ◌∷◌, arith, ltb, leb, if◌then◌else◌,
}
use sudo_agent.Base.Dict.{Dict, lookup, insert, erase, keep}
use sudo_agent.Budgets.Common.{Charge, KeyType}
use sudo_agent.Budgets.Memory.{BudgetManager, window, matches, usage_loop, current_usage, prune}

-- What one record counts for.
abbrev pub counted : ℕ → ℕ → KeyType → String → Charge → ℕ
counted now w kt v c = if ltb (c.ts + w) now then 0 else if matches kt v c then c.cost else 0

abbrev pub spent : ℕ → ℕ → KeyType → String → Dict Charge → ℕ
spent now w kt v [] = 0
spent now w kt v ((_, c) ∷ d) = counted now w kt v c + spent now w kt v d

usage_loop-eq-add :
    (now w : ℕ) (kt : KeyType) (v : String) (acc : ℕ) (d : Dict Charge)
    → usage_loop now w kt v acc d ≡ acc + spent now w kt v d
unfolding usage_loop
usage_loop-eq-add now w kt v acc [] = omega arith
usage_loop-eq-add now w kt v acc ((_, c) ∷ d) =
    ground
      (arith, usage_loop-eq-add now w kt v acc d, usage_loop-eq-add now w kt v (acc + c.cost) d)

pub current_usage-eq-spent :
    (now : ℕ) (kt : KeyType) (v : String) (m : BudgetManager)
    → current_usage now kt v m
      ≡ spent now (window m) kt v m.committed + spent now (window m) kt v m.pending
unfolding current_usage
current_usage-eq-spent now kt v m = omega (
  arith,
  usage_loop-eq-add now (window m) kt v 0 m.committed,
  usage_loop-eq-add now (window m) kt v (usage_loop now (window m) kt v 0 m.committed) m.pending,
)

-- Dropping records that are at least a window old does not change what is spent.
pub spent-keep :
    (now w age : ℕ) (kt : KeyType) (v : String) (d : Dict Charge)
    → w ≤ age
    → spent now w kt v (keep (λ c. leb now (c.ts + age)) d) ≡ spent now w kt v d
spent-keep now w age kt v [] h = refl
spent-keep now w age kt v ((_, c) ∷ d) h = ground (arith, spent-keep now w age kt v d h)

-- Later, the same records count for no more.
pub spent_mono :
    (now now' w : ℕ) (kt : KeyType) (v : String) (d : Dict Charge)
    → now ≤ now'
    → spent now' w kt v d ≤ spent now w kt v d
spent_mono now now' w kt v [] h = omega arith
spent_mono now now' w kt v ((_, c) ∷ d) h = ground (arith, spent_mono now now' w kt v d h)

pub spent-insert :
    (now w : ℕ) (kt : KeyType) (v k : String) (c : Charge) (d : Dict Charge)
    → lookup k d ≡ none
    → spent now w kt v (insert k c d) ≡ spent now w kt v d + counted now w kt v c
spent-insert now w kt v k c [] h = omega arith
spent-insert now w kt v k c ((j, x) ∷ d) h = ground (arith, spent-insert now w kt v k c d)

pub spent-erase :
    (now w : ℕ) (kt : KeyType) (v k : String) (c : Charge) (d : Dict Charge)
    → lookup k d ≡ some c
    → spent now w kt v (erase k d) + counted now w kt v c ≡ spent now w kt v d
spent-erase now w kt v k c [] h = cc
spent-erase now w kt v k c ((j, x) ∷ d) h = ground (arith, spent-erase now w kt v k c d)

-- Pruning leaves every usage as it was.
pub current_usage-prune :
    (now : ℕ) (kt : KeyType) (v : String) (m : BudgetManager)
    → current_usage now kt v (prune now m) ≡ current_usage now kt v m
unfolding prune
current_usage-prune now kt v m = simp current_usage-eq-spent (
    omega (
      arith,
      spent-keep now (window m) (window m) kt v m.committed,
      spent-keep now (window m) (window m * 2) kt v m.pending,
    ))

pub current_usage_mono :
    (now now' : ℕ) (kt : KeyType) (v : String) (m : BudgetManager)
    → now ≤ now'
    → current_usage now' kt v m ≤ current_usage now kt v m
current_usage_mono now now' kt v m h = simp current_usage-eq-spent (
    omega (
      arith,
      spent_mono now now' (window m) kt v m.committed h,
      spent_mono now now' (window m) kt v m.pending h,
    ))
