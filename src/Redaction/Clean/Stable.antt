-- ===== src/Redaction/Clean/Stable.antt =====
-- Redacting a second time changes nothing.
use sudo_agent.Base.{
  sym, ap, String, ◌≡◌, refl, inl, inr, Bool, true, false, Option, none, some, ◌||◌, not,
  Bool-cases,
}
use sudo_agent.Value.{
  Value, null, bool, int, float, decimal, str, bytes, list, tuple, dict, mixed_dict, other, Items,
  nil, cons, Fields, end, field, is_text, is_text-str,
}
use sudo_agent.Engine.Common.{ok}
use sudo_agent.Redaction.{
  is_sensitive_value, hides, guard, redact_plain, redact_items, redact_fields, redact_value,
}
use sudo_agent.Redaction.Clean.{
  clean_under, clean_plain, clean_items, clean_fields, is_clean, plain_holders, both, not-true,
  guard-Cleans, redact_plain-Cleans,
}

module _ (lower : String → String) where
  either : (a b : Bool) → (a || b) ≡ true → a ≡ false → b ≡ true
  either true b h k = absurd (cc k)
  either false b h k = h

  -- A clean value goes through the first tests as it is.
  guard_of_clean :
      (key : Option String) (v : Value)
      → is_clean lower key v ≡ true
      → (clean_plain lower v ≡ true → redact_plain lower v ≡ ok v)
      → guard lower key v (redact_plain lower v) ≡ ok v
  guard_of_clean key v c plain = elim (Bool-cases (is_text v "[redacted]")) [
    | inl h ↦ rw h (sym (ap ok (is_text-str v "[redacted]" h)))
    | inr h ↦
        let (shown, clean) =
          both lower (not (hides lower key)) (clean_plain lower v)
            (either (is_text v "[redacted]") _ c h) in
        rw (h, not-true lower (hides lower key) shown) (plain clean)
  ]

  mutual
    unfolding redact_plain clean_plain

    redact_plain_of_clean : (v : Value) → clean_plain lower v ≡ true → redact_plain lower v ≡ ok v
    redact_plain_of_clean (str s) h = rw (not-true lower (is_sensitive_value lower s) h) refl
    redact_plain_of_clean null h = refl
    redact_plain_of_clean (bool b) h = refl
    redact_plain_of_clean (int n) h = refl
    redact_plain_of_clean (decimal d) h = refl
    redact_plain_of_clean (list l) h = rw (redact_items_of_clean l h) refl
    redact_plain_of_clean (dict d) h = rw (redact_fields_of_clean d h) refl
    redact_plain_of_clean (float r) h = absurd (cc h)
    redact_plain_of_clean (tuple l) h = absurd (cc h)
    redact_plain_of_clean mixed_dict h = absurd (cc h)
    redact_plain_of_clean (bytes n) h = absurd (cc h)
    redact_plain_of_clean (other n b) h = absurd (cc h)

    redact_items_of_clean : (l : Items) → clean_items lower l ≡ true → redact_items lower l ≡ ok l
    redact_items_of_clean nil h = refl
    redact_items_of_clean (cons v l) h =
        let (first, rest) =
          both lower (clean_under lower none v (clean_plain lower v)) (clean_items lower l) h in
        rw (guard_of_clean none v first (redact_plain_of_clean v), redact_items_of_clean l rest)
          refl

    redact_fields_of_clean :
        (d : Fields) → clean_fields lower d ≡ true → redact_fields lower d ≡ ok d
    redact_fields_of_clean end h = refl
    redact_fields_of_clean (field k v d) h =
        let (first, rest) =
          both lower (clean_under lower (some k) v (clean_plain lower v)) (clean_fields lower d)
            h in
        rw
          (guard_of_clean (some k) v first (redact_plain_of_clean v), redact_fields_of_clean d rest)
          refl

  -- Where no placeholder looks like a secret: of what redaction returns, no value, at any depth, is a
  -- sensitive text, a value under a sensitive key is the marker, and all values are JSON; redacting it
  -- again under the same key changes nothing. It says nothing of the texts of the keys, which redaction
  -- leaves as they are.
  pub redact_value-idempotent :
      (key : Option String) (v w : Value)
      → plain_holders lower v ≡ true
      → redact_value lower key v ≡ ok w
      → (is_clean lower key w ≡ true) × (redact_value lower key w ≡ ok w)
  redact_value-idempotent key v w h e =
      (cleaned, guard_of_clean key w cleaned (redact_plain_of_clean w))
    where
      cleaned : is_clean lower key w ≡ true
      cleaned = rw e at (guard-Cleans lower key v _ (redact_plain-Cleans lower v h))
