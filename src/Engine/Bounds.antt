-- ===== src/Engine/Bounds.antt =====
-- types.py, `_truncate_error`, and async_engine.py, `_safe_error_for_ledger`: how long the errors are
-- that are written.
use Prim.Native.String.{◌++◌ as ◌<>◌, [] as empty, ◌∷◌ as ◌▸◌}
use text.Mathlib.TextLemmas.{cons-append}
use sudo_agent.Base.{
  ℕ, zero, suc, ◌+◌, ◌≤◌, ◌≡◌, refl, String, Bool, false, Option, none, some, arith, ltb,
  Bool-cases, inl, inr, if◌then◌else◌, ◌-◌,
}
use sudo_agent.Base.Text.{len, take}
use sudo_agent.Engine.Common.{
  Exn, ok, AuditEntry, truncate_error, validate_audit_entry, safe_message,
}
use sudo_agent.Engine.Execute.Guarded.{validate-cases}

len-take : (n : ℕ) (s : String) → len (take n s) ≤ n
len-take zero s = omega arith
len-take (suc n) empty = omega arith
len-take (suc n) (c ▸ s) = omega (arith, len-take n s)

len-dots : (s : String) → len (s <> "...") ≡ len s + 3
len-dots empty = refl
len-dots (c ▸ s) = rw (cons-append c s "...") (omega (arith, len-dots s))

-- A text that is cut to `n` characters, dots included, or that is not longer
cut-bound :
    (n m : ℕ) (s clean : String)
    → m + 3 ≤ n
    → s ≡ take m clean
    → len (if ltb n (len clean) then s <> "..." else clean) ≤ n
cut-bound n m s clean room cut = elim (Bool-cases (ltb n (len clean))) [
  | inl long ↦ rw (long, cut, len-dots (take m clean)) (omega (arith, len-take m clean, room))
  | inr short ↦ rw short (ground (arith, short))
]

large : (n : ℕ) → 3 ≤ n → ltb n 3 ≡ false
large n h = ground (arith, h)

safe_message_bound :
    (exc : Exn) (include_message : Bool) (max_length : ℕ)
    → 3 ≤ max_length
    → len (safe_message exc include_message max_length) ≤ max_length
unfolding safe_message
safe_message_bound exc include_message n h =
    rw (large n h) (cut-bound n (n - 3) (take (n - 3) _) _ (omega (arith, h)) refl)

abbrev pub Fits : ℕ → Option String → Type 0
Fits n none = Unit
Fits n (some s) = len s ≤ n

truncate_error-Fits : (o : Option String) → Fits 200 (truncate_error o)
truncate_error-Fits none = tt
truncate_error-Fits (some s) = elim (Bool-cases (ltb 200 (len s))) [
  | inl long ↦ rw (long, len-dots (take 197 s)) (omega (arith, len-take 197 s))
  | inr short ↦ rw short (ground (arith, short))
]

Fits-truncate_error : (n : ℕ) (o : Option String) → Fits n o → Fits n (truncate_error o)
Fits-truncate_error n none h = tt
Fits-truncate_error n (some s) h = elim (Bool-cases (ltb 200 (len s))) [
  | inl long ↦ rw (long, len-dots (take 197 s)) (ground (arith, len-take 197 s, long, h))
  | inr short ↦ rw short h
]

validated_error :
    (e e' : AuditEntry) → validate_audit_entry e ≡ ok e' → e'.error ≡ truncate_error e.error
validated_error e e' h = elim (validate-cases e) [
  | inl same ↦ cc (h, same)
  | inr (x, _, raised) ↦ absurd (cc (h, raised))
]

-- Where the maximum length is at least 3: the message of an exception that the ledger gets has at most
-- so many characters, and an audit entry that is made with it has at most so many and at most 200.
pub stored_errors-Fit :
    (exc : Exn) (include_message : Bool) (max_length : ℕ) (e e' : AuditEntry)
    → 3 ≤ max_length
    → e.error ≡ some (safe_message exc include_message max_length)
    → validate_audit_entry e ≡ ok e'
    → Fits max_length (some (safe_message exc include_message max_length))
      × Fits max_length e'.error
      × Fits 200 e'.error
stored_errors-Fit exc include_message n e e' h error valid =
    let bound = safe_message_bound exc include_message n h in
    (
      bound,
      rw (validated_error e e' valid, error)
          (Fits-truncate_error n (some (safe_message exc include_message n)) bound),
      rw (validated_error e e' valid) (truncate_error-Fits e.error),
    )
