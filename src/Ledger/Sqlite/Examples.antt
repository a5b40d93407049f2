-- ===== src/Ledger/Sqlite/Examples.antt =====
-- The two ledgers at concrete entries.
use sudo_agent.Base.{
  ℕ, zero, suc, ◌≡◌, refl, sym, ap, String, Bool, true, false, none, List, [], ◌∷◌, ◌&&◌, same_nat,
  is_some, if◌then◌else◌,
}
use sudo_agent.Value.{Value, null, str, dict, Fields, fields}
use sudo_agent.Ledger.Numerals.{json_string, show_nat}
use sudo_agent.Ledger.Jcs.{Result, ok, err, canonical_json, sha256_hex}
use sudo_agent.Value.Dict.{at}
use sudo_agent.Ledger.Jcs.OneLine.{canonical_json-Plain, canonical_json-Braced}
use sudo_agent.Ledger.Chain.{ParsedEntry, Hashing, append_all, check_values}
use sudo_agent.Ledger.Jsonl.{Bytes, encode}
use sudo_agent.Ledger.Jsonl.Lines.{text_of_lines, IsLine}
use sudo_agent.Ledger.Jsonl.Operations.{Loaded, value, decode_error, opened, verify_text}
use sudo_agent.Ledger.Chain.Appended.{line_of}
use sudo_agent.Ledger.Jsonl.Appended.{jcs_hashing, run_appends}
use sudo_agent.Ledger.Sqlite.{Row, append, verify_rows}
use sudo_agent.Ledger.Sqlite.Inserted.{run_inserts, row_texts, ledgers_agree}
use sudo_agent.Ledger.Sqlite.Verdicts.{accepted, verdicts_agree}

abbrev id : String → String
id s = s

abbrev hashing : Hashing
hashing = jcs_hashing id id none none

abbrev entry : String → Fields
entry event = fields (
    ("schema_version", str "2.0")
    ∷ ("ledger_version", str "2.0")
    ∷ ("event", str event)
    ∷ ("request_id", str "r1")
    ∷ ("decision", dict (fields (("decision_hash", str "d1") ∷ [])))
    ∷ [])

abbrev entries : List Fields
entries = entry "decision" ∷ entry "outcome" ∷ []

abbrev or_nil : Result (List ParsedEntry) → List ParsedEntry
or_nil (ok l) = l
or_nil (err e) = []

abbrev chain : List ParsedEntry
chain = or_nil (append_all hashing none 1 entries)

abbrev same_bytes : Bytes → Bytes → Bool
same_bytes [] [] = true
same_bytes (b ∷ l) (c ∷ r) = same_nat b c && same_bytes l r
same_bytes _ _ = false

-- Reads the lines of these entries only.
abbrev read_among : List ParsedEntry → Bytes → Loaded
read_among [] b = decode_error "Expecting value"
read_among (p ∷ l) b = if same_bytes b (encode (line_of p)) then value p.entry else read_among l b

abbrev loads : Bytes → Loaded
loads = read_among chain

ledgers_agree_example :
    let (hashes, file) = run_appends hashing loads entries none in
    let (hashes', rows) = run_inserts hashing loads entries [] in
    (hashes' ≡ hashes) × (opened hashing loads file ≡ text_of_lines (row_texts rows))
unfolding append_all canonical_json sha256_hex json_string encode
ledgers_agree_example =
    ledgers_agree id id none none loads entries chain refl ((_, refl, refl), ((_, refl, refl), tt))

abbrev rows : List Row
rows = (run_inserts hashing loads entries []).1

abbrev at_loaded : String → Loaded → Value
at_loaded k (value v) = at k v
at_loaded k (decode_error m) = null

passes :
    is_some (
      accepted
        (verify_rows hashing loads (record { expected_prev = none; decision_hashes = [] }) 1 rows))
    ≡ true
unfolding append_all canonical_json sha256_hex json_string encode run_inserts append verify_rows
    check_values show_nat
passes = refl

abbrev entry_fields : Value → Fields
entry_fields (dict d) = d
entry_fields v = fields []

-- The text of a row of these entries is a line.
written-IsLine :
    (p : ParsedEntry)
    → canonical_json id (dict (entry_fields p.entry)) ≡ ok (line_of p)
    → IsLine (line_of p)
written-IsLine p h = (
  canonical_json-Plain id (dict (entry_fields p.entry)) (line_of p) h,
  canonical_json-Braced id (entry_fields p.entry) (line_of p) h,
)

abbrev entry_at : ℕ → List ParsedEntry → ParsedEntry
entry_at n [] = record {
  entry = null;
  raw = none;
  index = 0;
  row_entry_hash = none;
  row_prev_hash = none;
}
entry_at zero (p ∷ l) = p
entry_at (suc n) (p ∷ l) = entry_at n l

verdicts_agree_example :
    accepted
      (verify_rows hashing loads (record { expected_prev = none; decision_hashes = [] }) 1 rows)
    ≡ accepted (verify_text hashing loads (text_of_lines (row_texts rows)))
unfolding append_all canonical_json sha256_hex json_string encode run_inserts append
verdicts_agree_example =
    verdicts_agree hashing loads rows
      (written-IsLine (entry_at 0 chain) refl, (written-IsLine (entry_at 1 chain) refl, tt))
      (
        λ e h. (sym (ap (at_loaded "entry_hash") h), sym (ap (at_loaded "prev_entry_hash") h)),
        (
          λ e h. (sym (ap (at_loaded "entry_hash") h), sym (ap (at_loaded "prev_entry_hash") h)),
          tt,
        ),
      )
