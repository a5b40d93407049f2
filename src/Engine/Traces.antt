-- ===== src/Engine/Traces.antt =====
-- Traces of a run: how often the guarded function was called, and what was written before.
use sudo_agent.Base.{ℕ, suc, ◌≤◌, ◌≡◌, Bool, true, false, List, [], ◌∷◌, ◌&&◌, arith}
use sudo_agent.Value.{is_text}
use sudo_agent.Value.Dict.{at}
use sudo_agent.Engine.Common.{Decision, allow, Exn, Result, ok, err}
use sudo_agent.Engine.Services.{
  Event, appended, logged, called, Run, Eff, continue, handled, ◌>>=◌, attempt,
}

abbrev is_allow : Decision → Bool
is_allow allow = true
is_allow _ = false

-- The last two events are the ledger entry and the audit entry of one decision to allow.
abbrev pub licensed : List Event → Bool
licensed (logged a ∷ (appended v ∷ t)) =
    is_text (at "effect" (at "decision" v)) "allow"
    && is_text (at "event" v) "decision"
    && is_text (at "request_id" v) a.request_id
    && is_allow a.decision
licensed _ = false

-- Every call of the function came directly after its decision had been written.
abbrev pub guarded : List Event → Bool
guarded [] = true
guarded (called ∷ t) = licensed t && guarded t
guarded (_ ∷ t) = guarded t

abbrev pub calls : List Event → ℕ
calls [] = 0
calls (called ∷ t) = suc (calls t)
calls (_ ∷ t) = calls t

-- No call in between.
abbrev pub Still : List Event → List Event → Type 0
Still t t' = (calls t' ≡ calls t) × (guarded t' ≡ guarded t)

-- One that returns has called the function exactly once, one that raises at most once.
abbrev pub CallsOf : {R : Type 0} → Result R → List Event → List Event → Type 0
CallsOf (ok r) t t' = calls t' ≡ suc (calls t)
CallsOf (err e) t t' = calls t' ≤ suc (calls t)

abbrev pub IsGuarded : {R : Type 0} → Result R → List Event → List Event → Type 0
IsGuarded r t t' = (guarded t ≡ true → guarded t' ≡ true) × CallsOf r t t'

pub CallsOf-from :
    {R : Type 0} (r : Result R) (t u v : List Event)
    → calls u ≡ calls t
    → CallsOf r u v
    → CallsOf r t v
CallsOf-from (ok x) t u v e h = omega arith
CallsOf-from (err x) t u v e h = omega arith

module _ {W : Type 0} where
  abbrev pub IsQuiet : {A : Type 0} → Eff W A → Type 0
  IsQuiet m = (s : Run W) → Still s.trace (m s).1.trace

  continue-Still :
      {A B : Type 0} (p : Result A × Run W) (f : A → Eff W B) (t : List Event)
      → Still t p.1.trace
      → ((a : A) → IsQuiet (f a))
      → Still t (continue p f).1.trace
  continue-Still (ok a, s) f t (c, g) q = (rw (q a s).0 c, rw (q a s).1 g)
  continue-Still (err e, s) f t h q = h

  pub bind-IsQuiet :
      {A B : Type 0} (m : Eff W A) (f : A → Eff W B)
      → IsQuiet m
      → ((a : A) → IsQuiet (f a))
      → IsQuiet (m >>= f)
  unfolding ◌>>=◌
  bind-IsQuiet m f q r s = continue-Still (m s) f s.trace (q s) r

  handled-Still :
      {A : Type 0} (p : Result A × Run W) (h : Exn → Eff W A) (t : List Event)
      → Still t p.1.trace
      → ((e : Exn) → IsQuiet (h e))
      → Still t (handled p h).1.trace
  handled-Still (ok a, s) h t g q = g
  handled-Still (err e, s) h t (c, g) q = (rw (q e s).0 c, rw (q e s).1 g)

  pub attempt-IsQuiet :
      {A : Type 0} (m : Eff W A) (h : Exn → Eff W A)
      → IsQuiet m
      → ((e : Exn) → IsQuiet (h e))
      → IsQuiet (attempt m h)
  unfolding attempt
  attempt-IsQuiet m h q r s = handled-Still (m s) h s.trace (q s) r

  continue-IsGuarded :
      {A R : Type 0} (p : Result A × Run W) (f : A → Eff W R) (t : List Event)
      → Still t p.1.trace
      → ((a : A) (s : Run W) → IsGuarded (f a s).0 s.trace (f a s).1.trace)
      → IsGuarded (continue p f).0 t (continue p f).1.trace
  continue-IsGuarded (ok a, s) f t (c, g) q =
      (λ h. (q a s).0 (rw g h), CallsOf-from _ t s.trace _ c (q a s).1)
  continue-IsGuarded (err e, s) f t (c, g) q = (λ h. rw g h, omega (arith, c))

  pub bind-IsGuarded :
      {A R : Type 0} (m : Eff W A) (f : A → Eff W R)
      → IsQuiet m
      → ((a : A) (s : Run W) → IsGuarded (f a s).0 s.trace (f a s).1.trace)
      → (s : Run W) → IsGuarded ((m >>= f) s).0 s.trace ((m >>= f) s).1.trace
  unfolding ◌>>=◌
  bind-IsGuarded m f q r s = continue-IsGuarded (m s) f s.trace (q s) r
