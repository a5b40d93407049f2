-- ===== src/Redaction/Clean.antt =====
-- redaction.py: what redaction leaves of values. The texts of keys are not looked at, as in the code.
pub mod Stable
use sudo_agent.Base.{
  sym, ap, String, ◌≡◌, refl, ◌⊎◌, inl, inr, Bool, true, false, Option, none, some, ◌&&◌, ◌||◌,
  ◌==◌, not, arith, eq_iff, Bool-cases, if◌then◌else◌,
}
use sudo_agent.Value.{
  Value, null, bool, int, float, decimal, str, bytes, list, tuple, dict, mixed_dict, other, Items,
  nil, cons, Fields, end, field, is_text,
}
use sudo_agent.Engine.Common.{Result, ok, err}
use sudo_agent.Redaction.{
  redacted, non_json_placeholder, then_result, is_sensitive_value, hides, guard, redact_plain,
  redact_items, redact_fields, redact_value,
}

module _ (lower : String → String) where
  -- A value that is the marker, or stands under no sensitive key and is `b`
  abbrev pub clean_under : Option String → Value → Bool → Bool
  clean_under key v b = is_text v "[redacted]" || (not (hides lower key) && b)

  unfoldable mutual
    -- JSON without floats, with no sensitive text as a value and nothing but the marker under a sensitive
    -- key; the keys' own texts may be anything.
    pub clean_plain : Value → Bool
    clean_plain (str s) = not (is_sensitive_value lower s)
    clean_plain null = true
    clean_plain (bool b) = true
    clean_plain (int n) = true
    clean_plain (decimal d) = true
    clean_plain (list l) = clean_items l
    clean_plain (dict d) = clean_fields d
    clean_plain (float r) = false
    clean_plain (tuple l) = false
    clean_plain mixed_dict = false
    clean_plain (bytes n) = false
    clean_plain (other name b) = false

    pub clean_items : Items → Bool
    clean_items nil = true
    clean_items (cons v l) = clean_under none v (clean_plain v) && clean_items l

    pub clean_fields : Fields → Bool
    clean_fields end = true
    clean_fields (field k v d) = clean_under (some k) v (clean_plain v) && clean_fields d

  abbrev pub is_clean : Option String → Value → Bool
  is_clean key v = clean_under key v (clean_plain v)

  unfoldable mutual
    -- No placeholder that redaction puts in looks like a secret.
    pub plain_holders : Value → Bool
    plain_holders mixed_dict = not (is_sensitive_value lower (non_json_placeholder mixed_dict))
    plain_holders (bytes n) = not (is_sensitive_value lower (non_json_placeholder (bytes n)))
    plain_holders (other name b) =
        not (is_sensitive_value lower (non_json_placeholder (other name b)))
    plain_holders (list l) = plain_items l
    plain_holders (tuple l) = plain_items l
    plain_holders (dict d) = plain_fields d
    plain_holders null = true
    plain_holders (bool b) = true
    plain_holders (int n) = true
    plain_holders (float r) = true
    plain_holders (decimal d) = true
    plain_holders (str s) = true

    plain_items : Items → Bool
    plain_items nil = true
    plain_items (cons v l) = plain_holders v && plain_items l

    plain_fields : Fields → Bool
    plain_fields end = true
    plain_fields (field k v d) = plain_holders v && plain_fields d

  abbrev Cleans : Option String → Result Value → Type 0
  Cleans key (ok w) = is_clean key w ≡ true
  Cleans key (err e) = Unit

  abbrev CleansItems : Result Items → Type 0
  CleansItems (ok l) = clean_items l ≡ true
  CleansItems (err e) = Unit

  abbrev CleansFields : Result Fields → Type 0
  CleansFields (ok d) = clean_fields d ≡ true
  CleansFields (err e) = Unit

  pub both : (a b : Bool) → (a && b) ≡ true → (a ≡ true) × (b ≡ true)
  both true b h = (refl, h)
  both false b h = absurd (cc h)

  and : (a b : Bool) → a ≡ true → b ≡ true → (a && b) ≡ true
  and true b h k = k
  and false b h k = absurd (cc h)

  -- What is clean without a key is clean under a key that is not sensitive.
  under :
      (key : Option String) (r : Result Value)
      → hides lower key ≡ false
      → Cleans none r
      → Cleans key r
  under key (ok w) h c = rw h c
  under key (err e) h c = tt

  pub guard-Cleans :
      (key : Option String) (v : Value) (r : Result Value)
      → Cleans none r
      → Cleans key (guard lower key v r)
  guard-Cleans key v r c = elim (Bool-cases (is_text v "[redacted]")) [
    | inl h ↦ rw h refl
    | inr h ↦ elim (Bool-cases (hides lower key)) [
      | inl g ↦ rw (h, g) refl
      | inr g ↦ rw (h, g) (under key r g c)
    ]
  ]

  list-Cleans : (r : Result Items) → CleansItems r → Cleans none (then_result r λ m. ok (list m))
  unfolding clean_plain
  list-Cleans (ok l) c = c
  list-Cleans (err e) c = tt

  dict-Cleans : (r : Result Fields) → CleansFields r → Cleans none (then_result r λ e. ok (dict e))
  unfolding clean_plain
  dict-Cleans (ok d) c = c
  dict-Cleans (err e) c = tt

  cons-Cleans :
      (r : Result Value) (q : Result Items)
      → Cleans none r
      → CleansItems q
      → CleansItems (then_result r λ w. then_result q λ m. ok (cons w m))
  unfolding clean_plain
  cons-Cleans (ok w) (ok m) c d = and _ _ c d
  cons-Cleans (ok w) (err e) c d = tt
  cons-Cleans (err e) q c d = tt

  field-Cleans :
      (k : String) (r : Result Value) (q : Result Fields)
      → Cleans (some k) r
      → CleansFields q
      → CleansFields (then_result r λ w. then_result q λ e. ok (field k w e))
  unfolding clean_plain
  field-Cleans k (ok w) (ok d) c f = and _ _ c f
  field-Cleans k (ok w) (err e) c f = tt
  field-Cleans k (err e) q c f = tt

  str-Cleans : (s : String) → is_sensitive_value lower s ≡ false → Cleans none (ok (str s))
  unfolding clean_plain
  str-Cleans s h = ground arith

  pub not-true : (b : Bool) → not b ≡ true → b ≡ false
  not-true true h = absurd (cc h)
  not-true false h = refl

  text-Cleans :
      (s : String) → Cleans none (if is_sensitive_value lower s then ok redacted else ok (str s))
  text-Cleans s = elim (Bool-cases (is_sensitive_value lower s)) [
    | inl h ↦ rw h refl
    | inr h ↦ rw h (str-Cleans s h)
  ]

  mutual
    unfolding redact_plain plain_holders clean_plain

    pub redact_plain-Cleans :
        (v : Value) → plain_holders v ≡ true → Cleans none (redact_plain lower v)
    redact_plain-Cleans (str s) h = text-Cleans s
    redact_plain-Cleans null h = refl
    redact_plain-Cleans (bool b) h = refl
    redact_plain-Cleans (int n) h = refl
    redact_plain-Cleans (decimal d) h = refl
    redact_plain-Cleans (float r) h = tt
    redact_plain-Cleans (list l) h = list-Cleans _ (redact_items-Cleans l h)
    redact_plain-Cleans (tuple l) h = list-Cleans _ (redact_items-Cleans l h)
    redact_plain-Cleans (dict d) h = dict-Cleans _ (redact_fields-Cleans d h)
    redact_plain-Cleans mixed_dict h = str-Cleans _ (not-true _ h)
    redact_plain-Cleans (bytes n) h = str-Cleans _ (not-true _ h)
    redact_plain-Cleans (other name b) h = str-Cleans _ (not-true _ h)

    redact_items-Cleans : (l : Items) → plain_items l ≡ true → CleansItems (redact_items lower l)
    redact_items-Cleans nil h = refl
    redact_items-Cleans (cons v l) h =
        cons-Cleans _ _ (guard-Cleans none v _ (redact_plain-Cleans v (both _ _ h).0))
          (redact_items-Cleans l (both _ _ h).1)

    redact_fields-Cleans :
        (d : Fields) → plain_fields d ≡ true → CleansFields (redact_fields lower d)
    redact_fields-Cleans end h = refl
    redact_fields-Cleans (field k v d) h =
        field-Cleans k _ _ (guard-Cleans (some k) v _ (redact_plain-Cleans v (both _ _ h).0))
          (redact_fields-Cleans d (both _ _ h).1)
