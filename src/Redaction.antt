-- ===== src/Redaction.antt =====
-- redaction.py. `lower` is `str.lower`; the test `value == "[redacted]"` of an object of another
-- class is taken to be false.
pub mod Clean
mod Examples
use Prim.Native.String.{◌++◌ as ◌<>◌}
use sudo_agent.Base.{
  ℕ, String, Bool, true, false, Option, none, some, List, [], ◌∷◌, ◌==◌, ◌||◌, ◌&&◌, not, leb,
  if◌then◌else◌,
}
use sudo_agent.Base.Text.{len, strip, occurrences, starts_with, contains_text}
use sudo_agent.Value.{
  Value, null, bool, int, float, decimal, str, bytes, list, tuple, dict, mixed_dict, other, Items,
  nil, cons, Fields, end, field, is_text,
}
use sudo_agent.Engine.Common.{Result, ok, err, exception}
use sudo_agent.Ledger.Numerals.{show_nat}

abbrev any : (String → Bool) → List String → Bool
any p [] = false
any p (s ∷ l) = p s || any p l

abbrev sensitive_key_terms : List String
sensitive_key_terms =
    "api_key" ∷ "apikey" ∷ "token" ∷ "secret" ∷ "password" ∷ "passwd" ∷ "authorization" ∷ "bearer"
    ∷ "private_key" ∷ "privatekey" ∷ "access_key" ∷ "accesskey" ∷ "credential" ∷ "session" ∷ "jwt"
    ∷ "auth" ∷ []

abbrev sensitive_value_prefixes : List String
sensitive_value_prefixes = "sk-" ∷ "rk-" ∷ "ghp_" ∷ "github_pat_" ∷ "xoxb-" ∷ "xoxa-" ∷ []

-- `[redacted]`
abbrev pub redacted : Value
redacted = str "[redacted]"

-- `_non_json_placeholder`
abbrev pub non_json_placeholder : Value → String
non_json_placeholder (bytes n) = "<bytes:" <> show_nat n <> ">"
non_json_placeholder (other name b) = "<" <> name <> ">"
non_json_placeholder _ = "<dict>"

abbrev pub then_result : {A B : Type 0} → Result A → (A → Result B) → Result B
then_result (ok a) f = f a
then_result (err e) f = err e

module _ (lower : String → String) where
  unfoldable pub is_sensitive_key : String → Bool
  is_sensitive_key key = any (contains_text (lower key)) sensitive_key_terms

  -- `is_sensitive_value` of a text, stripped
  unfoldable pub is_sensitive_value : String → Bool
  is_sensitive_value value =
      let s = strip value in
      (occurrences 46 s == "..") && leb 24 (len s)
      || starts_with (lower s) "bearer "
      || any (starts_with s) sensitive_value_prefixes
      || contains_text s "-----BEGIN"

  -- `key is not None and is_sensitive_key(key)`
  abbrev pub hides : Option String → Bool
  hides none = false
  hides (some key) = is_sensitive_key key

  -- The first two tests of `redact_value`, where the rest of it gives `r`.
  abbrev pub guard : Option String → Value → Result Value → Result Value
  guard key v r =
      if is_text v "[redacted]" then ok redacted else if hides key then ok redacted else r

  unfoldable mutual
    -- The rest of `redact_value`
    pub redact_plain : Value → Result Value
    redact_plain (str s) = if is_sensitive_value s then ok redacted else ok (str s)
    redact_plain null = ok null
    redact_plain (bool b) = ok (bool b)
    redact_plain (int n) = ok (int n)
    redact_plain (float r) =
        err (exception "ValueError" "floats are rejected; use Decimal for exact numbers")
    redact_plain (decimal d) = ok (decimal d)
    redact_plain (list l) = then_result (redact_items l) λ m. ok (list m)
    redact_plain (tuple l) = then_result (redact_items l) λ m. ok (list m)
    redact_plain (dict d) = then_result (redact_fields d) λ e. ok (dict e)
    redact_plain mixed_dict = ok (str (non_json_placeholder mixed_dict))
    redact_plain (bytes n) = ok (str (non_json_placeholder (bytes n)))
    redact_plain (other name b) = ok (str (non_json_placeholder (other name b)))

    -- `redact_args`, and the same for the elements of a list
    pub redact_items : Items → Result Items
    redact_items nil = ok nil
    redact_items (cons v l) =
        then_result (guard none v (redact_plain v))
          λ w. then_result (redact_items l) λ m. ok (cons w m)

    -- `redact_kwargs`, and the same for the entries of a dict
    pub redact_fields : Fields → Result Fields
    redact_fields end = ok end
    redact_fields (field k v d) =
        then_result (guard (some k) v (redact_plain v))
          λ w. then_result (redact_fields d) λ e. ok (field k w e)

  -- `redact_value`
  abbrev pub redact_value : Option String → Value → Result Value
  redact_value key v = guard key v (redact_plain v)
