-- ===== src/Approvals/Store/Rules.antt =====
-- Invariants of the store's actions, one rule for each way to build an action.
use sudo_agent.Approvals.Common.{Result, ok, err}
use sudo_agent.Approvals.Store.{Store, Action, continue, ◌>>=◌}

-- The action keeps `P`, whether it returns or raises.
abbrev pub Preserves : {A : Type 0} → (Store → Type 0) → Action A → Type 0
Preserves P m = (s : Store) → P s → P (m s).1

module _ (P : Store → Type 0) {A B : Type 0} where
  pub Preserves-lift_bind :
      (r : Result A) (f : A → Action B)
      → ((a : A) → Preserves P (f a))
      → Preserves P (λ s. continue (r, s) f)
  Preserves-lift_bind (ok a) f pf s h = pf a s h
  Preserves-lift_bind (err e) f pf s h = h

  pub Preserves-bind :
      (m : Action A) (f : A → Action B)
      → Preserves P m
      → ((a : A) → Preserves P (f a))
      → Preserves P (m >>= f)
  Preserves-bind m f pm pf s h = let (r, s') = m s in Preserves-lift_bind r f pf s' (pm s h)
