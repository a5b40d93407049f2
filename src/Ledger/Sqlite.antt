-- ===== src/Ledger/Sqlite.antt =====
-- ledger/sqlite.py: the ledger in a table, its rows in the order of their ids. An append is one
-- immediate transaction. `json.loads` is the parameter `loads`.
pub mod Inserted
pub mod Verdicts
mod Examples
use Prim.Native.Char.{Char}
use Prim.Native.String.{[] as empty, ◌∷◌ as ◌▸◌, ◌++◌ as ◌<>◌}
use sudo_agent.Base.{ℕ, suc, String, Option, none, some, List, [], ◌∷◌, ◌++◌, ◌==◌}
use sudo_agent.Value.{dict, Fields, fields_of}
use sudo_agent.Ledger.Numerals.{show_nat}
use sudo_agent.Ledger.Jcs.{verification, Result, ok, err}
use sudo_agent.Ledger.Chain.{
  ParsedEntry, Verifier, Hashing, ◌>>=◌, require, prepare_entry, signed, validate_entry,
}
use sudo_agent.Ledger.Jsonl.{Bytes, encode}
use sudo_agent.Ledger.Jsonl.Operations.{
  Loaded, value, decode_error, Completion, returned, raised, as_write_error, verdict,
}

-- A row of the table `ledger`
pub record Row : Type 0 where
  pub entry_json : String
  pub entry_hash : String
  pub prev_entry_hash : Option String

-- `SELECT entry_hash FROM ledger ORDER BY id DESC LIMIT 1`
unfoldable pub read_last_entry_hash : List Row → Option String
read_last_entry_hash [] = none
read_last_entry_hash (r ∷ []) = some r.entry_hash
read_last_entry_hash (r ∷ s ∷ rows) = read_last_entry_hash (s ∷ rows)

module _ (self : Hashing) (loads : Bytes → Loaded) where
  -- The row that `append` inserts, and the hash that it returns.
  abbrev pub new_row : Fields → Option String → Result (Row × String)
  new_row entry prev_hash = do
    (prepared, h) ← prepare_entry self entry prev_hash
    line ← self.canonical_json (dict (signed self.sign h prepared))
    ok (record { entry_json = line; entry_hash = h; prev_entry_hash = prev_hash }, h)

  abbrev pub inserted : List Row → Result (Row × String) → Completion String × List Row
  inserted rows (ok (row, h)) = (returned h, rows ++ row ∷ [])
  inserted rows (err e) = (raised (as_write_error e), rows)

  unfoldable pub append : Fields → List Row → Completion String × List Row
  unfolding prepare_entry read_last_entry_hash
  append entry rows = inserted rows (new_row entry (read_last_entry_hash rows))

  -- A row as `_iter_parsed` yields it.
  abbrev pub parse_object : ℕ → Row → Option Fields → Result ParsedEntry
  parse_object n row none = err (verification ("row " <> show_nat n <> " is not an object"))
  parse_object n row (some e) = do
    text ← self.canonical_json (dict e)
    _ ← require (text == row.entry_json) ("row " <> show_nat n <> " is not canonical")
    ok (record {
      entry = dict e;
      raw = some row.entry_json;
      index = n;
      row_entry_hash = some row.entry_hash;
      row_prev_hash = row.prev_entry_hash;
    })

  abbrev pub parse_loaded : ℕ → Row → Loaded → Result ParsedEntry
  parse_loaded n row (decode_error m) = err (verification m)
  parse_loaded n row (value v) = parse_object n row (fields_of v)

  abbrev pub parse_text : ℕ → Row → String → Result ParsedEntry
  parse_text n row empty = err (verification ("empty entry_json at row " <> show_nat n))
  parse_text n row (c ▸ s) = parse_loaded n row (loads (encode (c ▸ s)))

  abbrev pub parse_row : ℕ → Row → Result ParsedEntry
  parse_row n row = parse_text n row row.entry_json

  -- `_verify_rows`: each row is parsed when the check comes to it.
  unfoldable pub verify_rows : Verifier → ℕ → List Row → Result Verifier
  verify_rows v n [] = ok v
  verify_rows v n (r ∷ rows) =
      parse_row n r >>= λ p. validate_entry self v p >>= λ v'. verify_rows v' (suc n) rows

  -- `verify`, on a database that exists
  unfoldable pub verify : List Row → Completion Unit
  unfolding verify_rows
  verify rows =
      verdict self loads
        (verify_rows (record { expected_prev = none; decision_hashes = [] }) 1 rows)
