-- ===== src/Engine/Execute/Returns.antt =====
-- Rules for what the parts of `execute` can return.
use sudo_agent.Base.{Bool, true, false, List, if◌then◌else◌}
use sudo_agent.Engine.Common.{Exn, Result, ok, err}
use sudo_agent.Engine.Services.{Event, Run, Eff, raise, await, ◌>>=◌, attempt, continue, handled}
use sudo_agent.Engine.Traces.{Still, IsQuiet}

-- What is returned, if anything is, has the property.
abbrev pub Returned : {A : Type 0} → (A → Type 0) → Result A → Type 0
Returned P (ok a) = P a
Returned P (err e) = Unit

module _ {W : Type 0} where
  unfoldable pub Returns : {A : Type 0} → (A → Type 0) → Eff W A → Type 0
  Returns P m = (s : Run W) → Returned P (m s).0

  continue-Still_if :
      {A B : Type 0} (P : A → Type 0) (p : Result A × Run W) (f : A → Eff W B) (t : List Event)
      → Still t p.1.trace
      → Returned P p.0
      → ((a : A) → P a → IsQuiet (f a))
      → Still t (continue p f).1.trace
  continue-Still_if P (ok a, s) f t (c, g) h q = (rw (q a h s).0 c, rw (q a h s).1 g)
  continue-Still_if P (err e, s) f t g h q = g

  pub bind-IsQuiet_if :
      {A B : Type 0} (P : A → Type 0) (m : Eff W A) (f : A → Eff W B)
      → IsQuiet m
      → Returns P m
      → ((a : A) → P a → IsQuiet (f a))
      → IsQuiet (m >>= f)
  unfolding ◌>>=◌ Returns
  bind-IsQuiet_if P m f q h r s = continue-Still_if P (m s) f s.trace (q s) (h s) r

  pub attempt-Returns :
      {A : Type 0} (P : A → Type 0) (m : Eff W A) (h : Exn → Eff W A)
      → Returns P m
      → ((e : Exn) → Returns P (h e))
      → Returns P (attempt m h)
  unfolding Returns attempt
  attempt-Returns {A = A} P m h q r s = handled-Returned (m s) (q s)
    where
      handled-Returned : (p : Result A × Run W) → Returned P p.0 → Returned P (handled p h).0
      handled-Returned (ok a, s') k = k
      handled-Returned (err e, s') k = r e s'

  pub bind-Returns :
      {A B : Type 0} (P : A → Type 0) (m : Eff W B) (f : B → Eff W A)
      → ((b : B) → Returns P (f b))
      → Returns P (m >>= f)
  unfolding Returns ◌>>=◌
  bind-Returns {A = A} {B = B} P m f h s = continue-Returned (m s)
    where
      continue-Returned : (p : Result B × Run W) → Returned P (continue p f).0
      continue-Returned (ok b, s') = h b s'
      continue-Returned (err x, s') = tt

  pub if-Returns :
      {A : Type 0} (P : A → Type 0) (b : Bool) (m k : Eff W A)
      → Returns P m
      → Returns P k
      → Returns P (if b then m else k)
  if-Returns P true m k q r = q
  if-Returns P false m k q r = r

  pub await-Returns :
      {A : Type 0} (P : A → Type 0) (e : Event) (op : W → Result A × W)
      → ((w : W) → Returned P (op w).0)
      → Returns P (await e op)
  unfolding Returns
  await-Returns P e op h s = h s.world

pub raise-Returns :
    (W : Type 0) {A : Type 0} (P : A → Type 0) (e : Exn) → Returns P (raise {W = W} e)
unfolding Returns
raise-Returns W P e s = tt
