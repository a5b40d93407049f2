-- ===== src/Ledger/Jsonl/Operations.antt =====
-- ledger/jsonl.py, `JSONLLedger.append` and `JSONLLedger.verify`, with the errors that they raise.
use Prim.Native.Char.{Char, code}
use Prim.Native.String.{[] as empty, ◌∷◌ as ◌▸◌, ◌++◌ as ◌<>◌}
use sudo_agent.Base.{
  ℕ, suc, String, Bool, Option, none, some, List, [], ◌∷◌, ◌==◌, ◌||◌, ◌&&◌, not, same_nat,
  if◌then◌else◌,
}
use sudo_agent.Value.{Value, dict, Fields, text_of, fields_of}
use sudo_agent.Value.Dict.{get}
use sudo_agent.Ledger.Numerals.{show_nat}
use sudo_agent.Ledger.Jcs.{Error, canonicalization, verification, Result, ok, err}
use sudo_agent.Ledger.Chain.{
  ParsedEntry, Verifier, Hashing, ◌>>=◌, require, prepare_entry, signed, validate_entry,
}
use sudo_agent.Ledger.Jsonl.{
  Bytes, encode, rstrip_newlines, last_part, strip_bytes, tail_data, tail_read_chunk_size,
}

-- What `json.loads` gives: a value, or a `JSONDecodeError` with its message.
pub data Loaded : Type 0 where
  value : Value → Loaded
  decode_error : String → Loaded

-- What the methods raise. A `CanonicalizationError` is no `LedgerError`, so it passes through.
pub data Raised : Type 0 where
  ledger_write_error ledger_verification_error canonicalization_error : String → Raised

pub data Completion (A : Type 0) : Type 0 where
  returned : A → Completion A
  raised : Raised → Completion A

-- `except (OSError, LedgerError) as exc: raise LedgerWriteError(…) from exc`
abbrev pub as_write_error : Error → Raised
as_write_error (verification m) = ledger_write_error m
as_write_error (canonicalization m) = canonicalization_error m

abbrev pub as_verification_error : Error → Raised
as_verification_error (verification m) = ledger_verification_error m
as_verification_error (canonicalization m) = canonicalization_error m

-- The `entry_hash` of what stands in the last line.
abbrev pub entry_hash_of : Option Fields → Result (Option String)
entry_hash_of none = err (verification "ledger line is not an object")
entry_hash_of (some e) = hash_text (text_of (get "entry_hash" e))
  where
    hash_text : Option String → Result (Option String)
    hash_text none = err (verification "entry_hash missing or invalid")
    hash_text (some h) = ok (some h)

abbrev pub last_hash_of : Loaded → Result (Option String)
last_hash_of (decode_error m) = err (verification "invalid JSON at tail")
last_hash_of (value v) = entry_hash_of (fields_of v)

-- A line of the text, with the character that ends it: `\n`, `\r` or both.
abbrev pub ends_line : Char → String → Bool
ends_line c empty = same_nat (code c) 10 || same_nat (code c) 13
ends_line c (d ▸ s) = same_nat (code c) 10 || (same_nat (code c) 13 && not (same_nat (code d) 10))

abbrev pub onto_first : Char → List String → List String
onto_first c [] = (c ▸ empty) ∷ []
onto_first c (l ∷ lines) = (c ▸ l) ∷ lines

-- `for raw_line in handle`
unfoldable pub raw_lines : String → List String
raw_lines empty = []
raw_lines (c ▸ s) =
    let rest = raw_lines s in if ends_line c s then (c ▸ empty) ∷ rest else onto_first c rest

abbrev pub unless_newline : Char → String → String
unless_newline c empty = if same_nat (code c) 10 then empty else c ▸ empty
unless_newline c (d ▸ s) = c ▸ (d ▸ s)

-- `raw_line.rstrip("\n")`
abbrev pub rstrip_line : String → String
rstrip_line empty = empty
rstrip_line (c ▸ s) = unless_newline c (rstrip_line s)

module _ (self : Hashing) (loads : Bytes → Loaded) where
  -- `_read_last_entry_hash`, from the bytes of the last line
  abbrev pub hash_in_line : Bytes → Result (Option String)
  hash_in_line [] = ok none
  hash_in_line (b ∷ l) = last_hash_of (loads (b ∷ l))

  unfoldable pub read_last_entry_hash : String → Result (Option String)
  read_last_entry_hash text =
      hash_in_line
        (strip_bytes (last_part (rstrip_newlines (tail_data tail_read_chunk_size (encode text)))))

  -- The text after an append, and the hash that it returns.
  unfoldable pub append_text : Fields → String → Result (String × String)
  unfolding prepare_entry read_last_entry_hash
  append_text entry text = do
    last ← read_last_entry_hash text
    (prepared, h) ← prepare_entry self entry last
    line ← self.canonical_json (dict (signed self.sign h prepared))
    ok (text <> line <> "\n", h)

  -- `locked_file` makes the file where there is none.
  abbrev pub opened : Option String → String
  opened none = ""
  opened (some text) = text

  abbrev pub written : String → Result (String × String) → Completion String × Option String
  written text (ok (text', h)) = (returned h, some text')
  written text (err e) = (raised (as_write_error e), some text)

  unfoldable pub append : Fields → Option String → Completion String × Option String
  unfolding append_text
  append entry file = written (opened file) (append_text entry (opened file))

  -- A line as `_iter_parsed` yields it.
  abbrev pub parse_object : ℕ → String → Option Fields → Result ParsedEntry
  parse_object n line none = err (verification ("line " <> show_nat n <> " is not an object"))
  parse_object n line (some e) = do
    text ← self.canonical_json (dict e)
    _ ← require (text == line) ("line " <> show_nat n <> " is not canonical")
    ok (record {
      entry = dict e;
      raw = some line;
      index = n;
      row_entry_hash = none;
      row_prev_hash = none;
    })

  abbrev pub parse_loaded : ℕ → String → Loaded → Result ParsedEntry
  parse_loaded n line (decode_error m) = err (verification m)
  parse_loaded n line (value v) = parse_object n line (fields_of v)

  abbrev pub parse_line : ℕ → String → Result ParsedEntry
  parse_line n empty = err (verification ("empty line at " <> show_nat n))
  parse_line n (c ▸ s) = parse_loaded n (c ▸ s) (loads (encode (c ▸ s)))

  -- `_verify_stream`: each line is parsed when the check comes to it.
  unfoldable pub verify_lines : Verifier → ℕ → List String → Result Verifier
  verify_lines v n [] = ok v
  verify_lines v n (l ∷ lines) = parse_line n (rstrip_line l) >>= λ p.
      validate_entry self v p >>= λ v'. verify_lines v' (suc n) lines

  abbrev pub verdict : Result Verifier → Completion Unit
  verdict (ok v) = returned tt
  verdict (err e) = raised (as_verification_error e)

  abbrev pub verify_text : String → Result Verifier
  verify_text text =
      verify_lines (record { expected_prev = none; decision_hashes = [] }) 1 (raw_lines text)

  unfoldable pub verify : Option String → Completion Unit
  unfolding verify_lines raw_lines
  verify none = returned tt
  verify (some text) = verdict (verify_text text)
