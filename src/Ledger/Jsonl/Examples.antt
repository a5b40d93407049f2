-- ===== src/Ledger/Jsonl/Examples.antt =====
-- A ledger file at concrete entries: reading its end, appending to it and checking it.
use sudo_agent.Base.{
  ℕ, zero, suc, ◌≡◌, refl, String, Bool, true, false, none, some, List, [], ◌∷◌, ◌&&◌, same_nat,
  arith, if◌then◌else◌,
}
use sudo_agent.Value.{str, Fields, fields}
use sudo_agent.Ledger.Numerals.{json_string}
use sudo_agent.Ledger.Jcs.{Result, ok, err, canonical_json, sha256_hex}
use sudo_agent.Ledger.Chain.{ParsedEntry, Hashing, append_all, prepare_entry}
use sudo_agent.Ledger.Jsonl.{Bytes, encode, rstrip_newlines, last_part, tail_data}
use sudo_agent.Ledger.Jsonl.Tail.{tail_data-last_part}
use sudo_agent.Ledger.Jsonl.Lines.{text_of_lines}
use sudo_agent.Ledger.Jsonl.Operations.{
  Loaded, value, decode_error, raised, ledger_write_error, append, opened, read_last_entry_hash,
}
use sudo_agent.Ledger.Jsonl.Locked.{run, entry_line}
use sudo_agent.Ledger.Jsonl.Locked.Serial.{IsSerial, begin, run-IsSerial}
use sudo_agent.Ledger.Chain.Appended.{line_of}
use sudo_agent.Ledger.Jsonl.Appended.{
  jcs_hashing, lines_of, hashes_of, run_appends, run_appends-Refines,
}

abbrev three_lines : Bytes
three_lines = encode "{\"a\":1}\n{\"b\":2}\n{\"c\":3}\n"

in_chunks : tail_data 4 three_lines ≡ encode ":2}\n{\"c\":3}\n"
unfolding tail_data encode
in_chunks = refl

tail_data-last_part_example :
    last_part (rstrip_newlines (tail_data 4 three_lines)) ≡ last_part (rstrip_newlines three_lines)
unfolding encode
tail_data-last_part_example = tail_data-last_part 4 three_lines (omega arith) refl

abbrev id : String → String
id s = s

abbrev hashing : Hashing
hashing = jcs_hashing id id none none

abbrev entries : List Fields
entries = fields (("a", str "1") ∷ []) ∷ fields (("b", str "2") ∷ []) ∷ []

abbrev or_nil : Result (List ParsedEntry) → List ParsedEntry
or_nil (ok l) = l
or_nil (err e) = []

abbrev chain : List ParsedEntry
chain = or_nil (append_all hashing none 1 entries)

abbrev same_bytes : Bytes → Bytes → Bool
same_bytes [] [] = true
same_bytes (b ∷ l) (c ∷ r) = same_nat b c && same_bytes l r
same_bytes _ _ = false

-- Reads the lines of these entries only.
abbrev read_among : List ParsedEntry → Bytes → Loaded
read_among [] b = decode_error "Expecting value"
read_among (p ∷ l) b = if same_bytes b (encode (line_of p)) then value p.entry else read_among l b

abbrev loads : Bytes → Loaded
loads = read_among chain

refuses_garbage :
    append hashing loads (fields []) (some "{\n")
    ≡ (raised (ledger_write_error "invalid JSON at tail"), some "{\n")
unfolding append tail_data encode append_all sha256_hex canonical_json json_string
refuses_garbage = refl

run_appends-Refines_example :
    ((run_appends hashing loads entries none).0 ≡ hashes_of chain)
    × (opened hashing loads (run_appends hashing loads entries none).1
        ≡ text_of_lines (lines_of chain))
unfolding append_all canonical_json sha256_hex json_string encode
run_appends-Refines_example =
    run_appends-Refines id id none none loads entries chain refl
      ((_, refl, refl), ((_, refl, refl), tt))

-- The second process comes in between, and waits for the lock.
abbrev schedule : List ℕ
schedule = 0 ∷ 1 ∷ 0 ∷ 1 ∷ 0 ∷ 1 ∷ 0 ∷ 0 ∷ 1 ∷ 1 ∷ 1 ∷ 1 ∷ []

abbrev entry_of : ℕ → Fields
entry_of zero = fields (("a", str "1") ∷ [])
entry_of (suc p) = fields (("b", str "2") ∷ [])

run-IsSerial_example :
    IsSerial hashing loads entry_of none
      (run hashing loads entry_of schedule (begin hashing loads entry_of none))
run-IsSerial_example = run-IsSerial hashing loads entry_of none schedule

both_appended :
    opened hashing loads
      (run hashing loads entry_of schedule (begin hashing loads entry_of none)).file
    ≡ text_of_lines (lines_of chain)
unfolding run entry_line append_all canonical_json sha256_hex json_string encode
    read_last_entry_hash tail_data prepare_entry
both_appended = refl
