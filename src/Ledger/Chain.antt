-- ===== src/Ledger/Chain.antt =====
-- ledger/common.py, ledger/validation.py and the entry that `JSONLLedger.append` of ledger/jsonl.py
-- makes: entries chained by their hashes, and the check of a stream of parsed entries. The functions
-- of ledger/jcs.py and ledger/signing.py that they call are parameters.
pub mod Sealed
pub mod Parsed
pub mod Resealed
pub mod Appended
pub mod Tamper
use Prim.Native.String.{◌++◌ as ◌<>◌}
use sudo_agent.Base.{
  ℕ, suc, String, Bool, true, false, Option, none, some, List, [], ◌∷◌, ◌==◌, not, ◌||◌, ◌&&◌,
  if◌then◌else◌, is_some,
}
use sudo_agent.Base.Dict.{Dict, insert, contains, lookup}
use sudo_agent.Value.{
  Value, null, str, dict, Fields, end, is_null, is_text, text_of, fields_of, opt_str,
}
use sudo_agent.Value.Dict.{get, set, pop}
use sudo_agent.Ledger.Numerals.{show_nat}
use sudo_agent.Ledger.Jcs.{Error, verification, Result, ok, err, then_result}

-- `ParsedEntry`
pub record ParsedEntry : Type 0 where
  pub entry : Value
  pub raw : Option String
  pub index : ℕ
  pub row_entry_hash : Option String
  pub row_prev_hash : Option String

-- What `validate_parsed_entries` keeps between two entries.
pub record Verifier : Type 0 where
  pub expected_prev : Option String
  pub decision_hashes : Dict String

-- What the ledger calls: `canonical_bytes` as a text, `sha256_hex`, `sign_entry_hash` under the
-- signing key and `verify_entry_hash` under the public key, each `none` without its key.
pub record Hashing : Type 0 where
  pub canonical_json : Value → Result String
  pub sha256_hex : Value → Result String
  pub sign : Option (String → String)
  pub verify : Option (String → String → Bool)

abbrev pub require : Bool → String → Result Unit
require true message = ok tt
require false message = err (verification message)

-- A check whose message ends with the entry's index
abbrev pub check : Bool → String → ℕ → Result Unit
check b message idx = require b (message <> show_nat idx)

infixl 5 ◌>>=◌
abbrev pub ◌>>=◌ : {A B : Type 0} → Result A → (A → Result B) → Result B
◌>>=◌ r f = then_result r f

-- The three kinds of entry
pub data Event : Type 0 where
  decision outcome checkpoint : Event

abbrev pub event_of : Value → Option Event
event_of v =
    if is_text v "decision"
    then some decision
    else if is_text v "outcome"
    then some outcome
    else if is_text v "checkpoint"
    then some checkpoint
    else none

abbrev pub need : {A : Type 0} → Option A → String → ℕ → Result A
need (some a) message idx = ok a
need none message idx = err (verification (message <> show_nat idx))

-- An outcome refers to a decision that came before it, of the same request.
abbrev known : Option String → String → Dict String → ℕ → Result (Dict String)
known none rid hashes idx = err (verification ("decision_hash unknown at entry " <> show_nat idx))
known (some r) rid hashes idx =
    if r == rid
    then ok hashes
    else err (verification ("decision_hash mismatch at entry " <> show_nat idx))

-- The decision hashes after the entry; those of decisions are all different.
abbrev pub link : Event → String → String → Dict String → ℕ → Result (Dict String)
link decision rid h hashes idx =
    if contains h hashes
    then err (verification ("duplicate decision_hash at entry " <> show_nat idx))
    else ok (insert h rid hashes)
link outcome rid h hashes idx = known (lookup h hashes) rid hashes idx
link checkpoint rid h hashes idx = ok hashes

-- The checks on `request_id` and on the `decision` block
abbrev pub check_links : Event → Value → Value → Dict String → ℕ → Result (Dict String)
check_links checkpoint request_id block hashes idx =
    check (is_null request_id || is_some (text_of request_id)) "request_id type invalid at entry "
      idx
    >>= λ _. ok hashes
check_links event request_id block hashes idx = do
  rid ← need (text_of request_id) "request_id missing at entry " idx
  fields ← need (fields_of block) "decision block missing at entry " idx
  h ← need (text_of (get "decision_hash" fields)) "decision_hash missing at entry " idx
  link event rid h hashes idx

-- The checks on the values that an entry has under these names.
unfoldable pub check_values :
    Value → Value → Value → Value → Value → Dict String → ℕ → Result (Dict String)
check_values schema_version ledger_version event request_id block hashes idx = do
  _ ← check (is_text schema_version "2.0") "schema_version mismatch at entry " idx
  _ ← check (is_text ledger_version "2.0") "ledger_version mismatch at entry " idx
  kind ← need (event_of event) "event type invalid at entry " idx
  check_links kind request_id block hashes idx

-- The checks of an entry's content
abbrev pub check_content : Fields → Dict String → ℕ → Result (Dict String)
check_content e =
    check_values (get "schema_version" e) (get "ledger_version" e) (get "event" e)
      (get "request_id" e) (get "decision" e)

-- `prev_hash` against `expected_prev`
abbrev pub check_prev : Value → Option String → ℕ → Result Unit
check_prev null none idx = ok tt
check_prev (str s) (some t) idx = check (s == t) "prev_entry_hash mismatch at entry " idx
check_prev null (some t) idx =
    err (verification ("prev_entry_hash mismatch at entry " <> show_nat idx))
check_prev (str s) none idx =
    err (verification ("prev_entry_hash mismatch at entry " <> show_nat idx))
check_prev v expected idx =
    err (verification ("prev_entry_hash type invalid at entry " <> show_nat idx))

-- What an entry's hash is the hash of: its own hash is null and it has no signature.
abbrev pub body : Fields → Fields
body e = pop "entry_signature" (set "entry_hash" null e)

-- A column of the SQLite row, if there is one.
abbrev pub check_row : Option String → Value → String → ℕ → Result Unit
check_row none v message idx = ok tt
check_row (some column) v message idx = check (is_text v column) message idx

abbrev pub check_signature : Option (String → String → Bool) → Value → String → ℕ → Result Unit
check_signature none v h idx = ok tt
check_signature (some verify) v h idx = do
  signature ← need (text_of v) "entry_signature missing at entry " idx
  check (verify h signature) "entry_signature invalid at entry " idx

-- The entry before its hash is known
abbrev pub candidate : Option String → Fields → Fields
candidate prev_hash entry = set "entry_hash" null (set "prev_entry_hash" (opt_str prev_hash) entry)

-- `prepared["entry_signature"] = …`, with a signing key
abbrev pub signed : Option (String → String) → String → Fields → Fields
signed none h e = e
signed (some sign) h e = set "entry_signature" (str (sign h)) e

module _ (self : Hashing) where
  abbrev pub check_raw : Option String → Fields → ℕ → Result Unit
  check_raw none e idx = ok tt
  check_raw (some raw) e idx = self.canonical_json (dict e) >>= λ text.
      require (text == raw) ("entry " <> show_nat idx <> " is not canonical")

  -- The checks that follow once the hash has been calculated.
  abbrev pub settle :
      Verifier → ParsedEntry → Fields → Dict String → String → String → Result Verifier
  settle v p e hashes calculated actual = do
    _ ← check (calculated == actual) "entry_hash mismatch at entry " p.index
    _ ← check_row p.row_entry_hash (str actual) "entry_hash column mismatch at entry " p.index
    _ ←
        check_row p.row_prev_hash (get "prev_entry_hash" e)
          "prev_entry_hash column mismatch at entry " p.index
    _ ← check_signature self.verify (get "entry_signature" e) actual p.index
    ok (record { expected_prev = some actual; decision_hashes = hashes })

  -- The turn of the loop of `validate_parsed_entries` on an entry that is an object.
  abbrev pub validate_object : Verifier → ParsedEntry → Fields → Result Verifier
  validate_object v p e = do
    _ ← check_raw p.raw e p.index
    hashes ← check_content e v.decision_hashes p.index
    _ ← check_prev (get "prev_entry_hash" e) v.expected_prev p.index
    calculated ← self.sha256_hex (dict (body e))
    actual ← need (text_of (get "entry_hash" e)) "entry_hash missing at entry " p.index
    settle v p e hashes calculated actual

  abbrev pub validate_as : Verifier → ParsedEntry → Option Fields → Result Verifier
  validate_as v p none = err (verification ("entry " <> show_nat p.index <> " is not an object"))
  validate_as v p (some e) = validate_object v p e

  abbrev pub validate_entry : Verifier → ParsedEntry → Result Verifier
  validate_entry v p = validate_as v p (fields_of p.entry)

  -- The loop, from the verifier's state so far.
  unfoldable pub validate_from : Verifier → List ParsedEntry → Result Verifier
  validate_from v [] = ok v
  validate_from v (p ∷ entries) = validate_entry v p >>= λ v'. validate_from v' entries

  -- `validate_parsed_entries`
  abbrev pub validate_parsed_entries : List ParsedEntry → Result Verifier
  validate_parsed_entries entries =
      validate_from (record { expected_prev = none; decision_hashes = [] }) entries

  -- `prepare_entry`: the entry and its hash
  unfoldable pub prepare_entry : Fields → Option String → Result (Fields × String)
  prepare_entry entry prev_hash = self.sha256_hex (dict (candidate prev_hash entry)) >>= λ h.
      ok (set "entry_hash" (str h) (candidate prev_hash entry), h)

  -- The entry that `append` writes after the hash `last`, with its line, and its hash. What `json.loads`
  -- gives back for the line may have its keys in another order and its texts normalized.
  unfoldable pub append_after : Option String → ℕ → Fields → Result (ParsedEntry × String)
  unfolding prepare_entry
  append_after last idx entry = do
    (prepared, h) ← prepare_entry entry last
    line ← self.canonical_json (dict (signed self.sign h prepared))
    ok (
      record {
        entry = dict (signed self.sign h prepared);
        raw = some line;
        index = idx;
        row_entry_hash = none;
        row_prev_hash = none;
      },
      h,
    )

  -- The ledger that a list of entries is appended to: each entry as it was written, with its line
  unfoldable pub append_all : Option String → ℕ → List Fields → Result (List ParsedEntry)
  unfolding append_after
  append_all last idx [] = ok []
  append_all last idx (e ∷ entries) = do
    (p, h) ← append_after last idx e
    rest ← append_all (some h) (suc idx) entries
    ok (p ∷ rest)
