-- ===== src/Engine/Execute/BestEffort.antt =====
-- Outcome logging never changes what a call returns or raises, and counts its failed writes.
use sudo_agent.Base.{
  ℕ, suc, ◌+◌, String, ◌≡◌, refl, inl, inr, true, Option, none, some, List, [], ◌∷◌, arith,
  Bool-cases,
}
use sudo_agent.Value.{Value}
use sudo_agent.Engine.Common.{Exn, is_exception, Result, ok, err, AuditEntry, validate_audit_entry}
use sudo_agent.Engine.Services.{
  Engine, Event, append_failed, log_failed, called, Run, Eff, pure, raise, ◌>>=◌, ◌>>◌, attempt,
  continue,
}
use sudo_agent.Engine.Build.{ExecutionState}
use sudo_agent.Engine.Logging.{append_entry, log_checked, run_hook, count_failure, log_outcome}
use sudo_agent.Engine.Execute.{run_func}
use sudo_agent.Engine.Execute.Guarded.{answer-cases, validate-cases}

-- The writes that failed, of either log.
abbrev pub failures : List Event → ℕ
failures [] = 0
failures (append_failed ∷ t) = suc (failures t)
failures (log_failed ∷ t) = suc (failures t)
failures (_ ∷ t) = failures t

-- Whatever is raised is an `Exception`, so no cancellation and no exit.
abbrev pub RaisesExceptions : {A : Type 0} → Result A → Type 0
RaisesExceptions (ok a) = Unit
RaisesExceptions (err e) = is_exception e ≡ true

abbrev pub HookRaisesExceptions :
    {W : Type 0} → Option (String → Exn → W → Result Unit × W) → Type 0
HookRaisesExceptions none = Unit
HookRaisesExceptions {W = W} (some hook) =
    (event : String) (e : Exn) (w : W) → RaisesExceptions (hook event e w).0

-- The logs and the hook raise nothing but `Exception`s.
pub record LogsRaiseExceptions {W : Type 0} (self : Engine W) : Type 0 where
  pub append : (v : Value) (w : W) → RaisesExceptions (self.append v w).0
  pub log : (e : AuditEntry) (w : W) → RaisesExceptions (self.log e w).0
  pub hook : HookRaisesExceptions self.on_error

-- The call returned `x`, and its failed writes are those that were counted.
abbrev pub Tallies : {W A : Type 0} → Result A → Run W → Result A × Run W → Type 0
Tallies x s (r, s') =
    (r ≡ x) × (s'.error_count + failures s.trace ≡ s.error_count + failures s'.trace)

module _ {W : Type 0} (self : Engine W) (tame : LogsRaiseExceptions self) where
  run_hook-Tallies :
      (event : String) (e : Exn) (hook : Option (String → Exn → W → Result Unit × W)) (s : Run W)
      → HookRaisesExceptions hook
      → Tallies (ok tt) s (run_hook self event e hook s)
  unfolding attempt
  run_hook-Tallies event e none s h = (refl, refl)
  run_hook-Tallies event e (some hook) s h = elim (answer-cases (hook event e s.world)) [
    | inl (a, w, g) ↦ rw g (refl, refl)
    | inr (x, w, g) ↦ rw (g, rw g at (h event e s.world)) (refl, refl)
  ]

  hooked :
      (event : String) (e : Exn) (bad : Event) (s : Run W) (w : W)
      → let s' : Run W = record {
        world = w;
        trace = bad ∷ s.trace;
        error_count = s.error_count + 1;
      } in
        Tallies (ok tt) s' (run_hook self event e self.on_error s')
  hooked event e bad s w = run_hook-Tallies event e self.on_error _ tame.hook

  count_failure-Tallies :
      (event : String) (e : Exn) (bad : Event) (s : Run W) (w : W)
      → failures (bad ∷ s.trace) ≡ suc (failures s.trace)
      → is_exception e ≡ true
      → Tallies
          (ok tt)
          s
          (count_failure self event e (record s { world = w; trace = bad ∷ s.trace }))
  count_failure-Tallies event e bad s w f h =
      rw h ((hooked event e bad s w).0, omega (arith, f, (hooked event e bad s w).1))

  append-Tallies :
      (event : String) (v : Value) (s : Run W)
      → Tallies (ok tt) s (attempt (append_entry self v) (count_failure self event) s)
  unfolding attempt
  append-Tallies event v s = elim (answer-cases (self.append v s.world)) [
    | inl (a, w, g) ↦ rw g (refl, refl)
    | inr (e, w, g) ↦
        rw g
          (count_failure-Tallies event e append_failed s w refl (rw g at (tame.append v s.world)))
  ]

  log-Tallies :
      (event : String) (r : Result AuditEntry) (s : Run W)
      → RaisesExceptions r
      → Tallies (ok tt) s (attempt (log_checked self r) (count_failure self event) s)
  unfolding attempt
  log-Tallies event (err x) s h = count_failure-Tallies event x log_failed s s.world refl h
  log-Tallies event (ok a) s h = elim (answer-cases (self.log a s.world)) [
    | inl (u, w, g) ↦ rw g (refl, refl)
    | inr (e, w, g) ↦
        rw g (count_failure-Tallies event e log_failed s w refl (rw g at (tame.log a s.world)))
  ]

  validate-raises : (a : AuditEntry) → RaisesExceptions (validate_audit_entry a)
  validate-raises a = elim (validate-cases a) [ inl h ↦ rw h tt | inr (x, g, h) ↦ rw h g ]

  continue-Tallies :
      {A : Type 0} (x : Result A) (s : Run W) (p : Result Unit × Run W) (f : Unit → Eff W A)
      → Tallies (ok tt) s p
      → ((s' : Run W) → Tallies x s' (f tt s'))
      → Tallies x s (continue p f)
  continue-Tallies x s (ok tt, s') f (e, c) h = ((h s').0, omega (arith, c, (h s').1))
  continue-Tallies x s (err y, s') f (e, c) h = absurd (cc e)

  log_outcome-Tallies :
      (st : ExecutionState) (reason : String) (code : Option String) (outcome : String)
      (error : Option Exn) (s : Run W)
      → Tallies (ok tt) s (log_outcome self st reason code outcome error s)
  unfolding log_outcome ◌>>=◌
  log_outcome-Tallies st reason code outcome error s =
      continue-Tallies (ok tt) s _ _ (append-Tallies "outcome_ledger_write" _ s)
        λ s'. log-Tallies "outcome_audit_write" _ s' (validate-raises _)

module _ {W R : Type 0} (self : Engine W) (tame : LogsRaiseExceptions self)
    (func : W → Result R × W) where
  raised-Tallies :
      (e : Exn) (s : Run W) (p : Result R × Run W) (f : R → Eff W R)
      → Tallies (err e) s p
      → Tallies (err e) s (continue p f)
  raised-Tallies e s (ok r, s') f (h, c) = absurd (cc h)
  raised-Tallies e s (err x, s') f (h, c) = (h, c)

  -- Once the decision has been written, and where the logs and the hook raise nothing but
  -- `Exception`s: the call returns or raises what the function does, whichever writes of the outcome
  -- fail, and `error_count` grows by the number of the writes that fail.
  pub run_func-Tallies :
      (st : ExecutionState) (reason : String) (code : Option String) (s : Run W)
      → Tallies (func s.world).0 s (run_func self func st reason code s)
  unfolding ◌>>=◌ attempt
  run_func-Tallies st reason code s = elim (answer-cases (func s.world)) [
    | inl (r, w, g) ↦ rw g (
        continue-Tallies self tame (ok r) (after w) _ (λ _. pure r)
          (log_outcome-Tallies self tame st reason code "success" none (after w))
          λ s'. (refl, refl))
    | inr (e, w, g) ↦ rw g (elim (Bool-cases (is_exception e)) [
      | inl h ↦ rw h (
          raised-Tallies e s _ (λ r. log_outcome self st reason code "success" none >> pure r)
            (continue-Tallies self tame (err e) (after w) _ (λ _. raise e)
              (log_outcome-Tallies self tame st reason code "error" (some e) (after w))
              λ s'. (refl, refl)))
      | inr h ↦ rw h (refl, refl)
    ])
  ]
    where
      after : W → Run W
      after w = record s { world = w; trace = called ∷ s.trace }
