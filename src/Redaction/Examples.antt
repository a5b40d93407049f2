-- ===== src/Redaction/Examples.antt =====
-- Runs of redaction, and its theorem at concrete data. `lower` is the identity.
use sudo_agent.Base.{◌≡◌, refl, String, true, none, some, [], ◌∷◌}
use sudo_agent.Base.Int.{pos}
use sudo_agent.Base.Text.{strip}
use sudo_agent.Value.{Value, int, str, bytes, list, tuple, dict, float, nil, cons, fields}
use sudo_agent.Engine.Common.{ok, err, exception}
use sudo_agent.Ledger.Numerals.{show_nat}
use sudo_agent.Redaction.{
  redacted, is_sensitive_key, is_sensitive_value, redact_plain, redact_value,
}
use sudo_agent.Redaction.Clean.{is_clean, plain_holders}
use sudo_agent.Redaction.Clean.Stable.{redact_value-idempotent}

abbrev id : String → String
id s = s

abbrev call : Value
call = dict (
    fields (
      ("password", float "0.1")
      ∷ ("amount", int (pos 3))
      ∷ ("blob", bytes 4)
      ∷ ("keys", tuple (cons (str " sk-abc") (cons (str "plain") nil)))
      ∷ []))

abbrev shown : Value
shown = dict (
    fields (
      ("password", redacted)
      ∷ ("amount", int (pos 3))
      ∷ ("blob", str "<bytes:4>")
      ∷ ("keys", list (cons redacted (cons (str "plain") nil)))
      ∷ []))

redacted_call : redact_value id none call ≡ ok shown
unfolding redact_plain is_sensitive_key is_sensitive_value strip show_nat
redacted_call = refl

float_refused :
    redact_value id (some "rate") (float "0.1")
    ≡ err (exception "ValueError" "floats are rejected; use Decimal for exact numbers")
unfolding redact_plain is_sensitive_key is_sensitive_value strip show_nat
float_refused = refl

redact_value-idempotent_example :
    (is_clean id none shown ≡ true) × (redact_value id none shown ≡ ok shown)
unfolding redact_plain is_sensitive_key is_sensitive_value strip show_nat plain_holders
redact_value-idempotent_example = redact_value-idempotent id none call shown refl refl
