-- ===== src/Cli/Examples.antt =====
-- The commands of cli.py at a ledger of three lines.
use Prim.Native.String.{◌++◌ as ◌<>◌}
use sudo_agent.Base.{
  ◌≡◌, ap, refl, String, true, false, Option, none, some, List, [], ◌∷◌, ◌==◌, if◌then◌else◌, ◌↔◌,
  inl, inr,
}
use sudo_agent.Base.Dict.{lookup}
use sudo_agent.Value.{Value, is_text, str, dict, Fields, fields}
use sudo_agent.Ledger.Numerals.{json_string}
use sudo_agent.Ledger.Jcs.{Result, ok, err, canonical_json}
use sudo_agent.Ledger.Chain.{Hashing}
use sudo_agent.Ledger.Jsonl.{Bytes}
use sudo_agent.Ledger.Jsonl.Operations.{Loaded, decode_error, raw_lines}
use sudo_agent.Cli.{
  json_decode_error, type_error, Attempt, raises, Moment, aware, naive, Runtime, Item, yields,
  iter_entries, parse_timestamp, matches_filters,
}
use sudo_agent.Cli.Commands.{csv, code, crashes, World, ndjson, json, cmd_export}
use sudo_agent.Cli.Selecting.{cmd_filter}
use sudo_agent.Cli.Receipts.{by_request_id, by_decision_hash, find_decision, found, cmd_receipt}
use sudo_agent.Cli.Receipts.First.{Explains, find_decision-Explains}
use sudo_agent.Cli.Filtering.{filters, Agrees, NotBefore, NotAfter, matches_filters_iff}
use sudo_agent.Cli.Outcomes.{cmd_export-no_entries, cmd_receipt-crashes, cmd_filter-crashes}
use sudo_agent.Cli.Main.{PublicKey, no_key, pair, keygen_args, cmd_verify, main}
use sudo_agent.Cli.Verifying.{ExitsBy, IsVerified, cmd_verify-ExitsBy}
use sudo_agent.Cli.Keeping.Commands.{MayWrite, main-Keeps}
use sudo_agent.Ledger.Jsonl.Appended.{jcs_hashing}
use sudo_agent.Base.Text.{strip}

abbrev decision_of : String → Fields
decision_of h = fields (("decision_hash", str h) ∷ ("effect", str "allow") ∷ [])

abbrev entry_of : String → String → String → Fields
entry_of request_id created_at h = fields (
    ("created_at", str created_at)
    ∷ ("event", str "decision")
    ∷ ("request_id", str request_id)
    ∷ ("decision", dict (decision_of h))
    ∷ [])

abbrev first : Fields
first = entry_of "r1" "2026-01-01T00:00:00Z" "h1"

abbrev second : Fields
second = entry_of "r2" "2026-01-02T00:00:00Z" "h2"

abbrev text_or_empty : Result String → String
text_or_empty (ok s) = s
text_or_empty (err e) = ""

abbrev dumps : Value → String
dumps v = text_or_empty (canonical_json (λ s. s) v)

-- Reads the two entries only.
abbrev loads : String → Attempt Value
loads s =
    if s == dumps (dict first)
    then Attempt.ok (dict first)
    else if s == dumps (dict second)
    then Attempt.ok (dict second)
    else raises (json_decode_error "Expecting value")

-- Reads three times only; the last one has no time zone.
abbrev fromisoformat : String → Option Moment
fromisoformat s =
    if s == "2026-01-01T00:00:00+00:00"
    then some (aware 0)
    else if s == "2026-01-02T00:00:00+00:00"
    then some (aware 86400000000)
    else if s == "2026-01-02"
    then some (naive 86400000000)
    else none

abbrev csv_row : List String → String
csv_row [] = "\n"
csv_row (s ∷ l) = s <> "," <> csv_row l

abbrev runtime : Runtime
runtime = record {
  loads = loads;
  dumps = dumps;
  dumps_compact = dumps;
  csv_line = csv_row;
  str_of = dumps;
  fromisoformat = fromisoformat;
  lower = λ s. s;
}

abbrev good_text : String
good_text = dumps (dict first) <> "\n" <> dumps (dict second) <> "\n"

abbrev bad_text : String
bad_text = dumps (dict first) <> "\n{\n"

abbrev world : String → World
world text = record { files = ("ledger.jsonl", text) ∷ []; out = ""; errors = [] }

reads : iter_entries runtime good_text ≡ yields (dict first) ∷ yields (dict second) ∷ []
unfolding iter_entries raw_lines canonical_json json_string strip
reads = refl

cmd_export-no_entries_example :
    ((cmd_export runtime "ledger.jsonl" ndjson (some "ledger.jsonl") (world good_text)).0 ≡ code 0)
    × (lookup "ledger.jsonl"
          (cmd_export runtime "ledger.jsonl" ndjson (some "ledger.jsonl") (world good_text)).1.files
        ≡ some "")
cmd_export-no_entries_example =
    cmd_export-no_entries runtime "ledger.jsonl" ndjson (world good_text) refl

false_is_not_true : ¬ (false ≡ true)
false_is_not_true h = cc h

cmd_receipt-crashes_example :
    ((cmd_receipt runtime "ledger.jsonl" (some "r2") none none (world bad_text)).0
      ≡ crashes (json_decode_error "Expecting value"))
    × ((cmd_export runtime "ledger.jsonl" csv (some "out.csv") (world bad_text)).0 ≡ code 1)
unfolding iter_entries raw_lines canonical_json json_string strip
cmd_receipt-crashes_example =
    cmd_receipt-crashes runtime "ledger.jsonl" "Expecting value" (some "r2") none
      (by_request_id "r2") none (some "out.csv") csv (first ∷ []) [] (world bad_text) refl refl refl
      refl ((λ d (event, decision, asked). false_is_not_true (ap (λ v. is_text v "r2") asked)), tt)

naive_start_crashes :
    (cmd_filter runtime "ledger.jsonl" none none none
      (some "2026-01-02")
      none
      json
      none
      (world good_text)).0
    ≡ crashes type_error
unfolding iter_entries raw_lines canonical_json json_string strip parse_timestamp
naive_start_crashes =
    cmd_filter-crashes runtime "ledger.jsonl" "2026-01-02" "2026-01-01T00:00:00Z" 86400000000 0 json
      first (yields (dict second) ∷ []) (world good_text) refl refl refl refl refl

matches_filters_iff_example :
    (matches_filters runtime
        (filters (some "r2") none none (some 5) (some 86400000000))
        (dict second)
      ≡ Attempt.ok true)
    ↔ (Agrees (some "r2") "request_id" second
        × Agrees none "action" second
        × Agrees none "agent_id" second
        × NotBefore (some 5) 86400000000
        × NotAfter (some 86400000000) 86400000000)
unfolding parse_timestamp strip
matches_filters_iff_example =
    matches_filters_iff runtime second "2026-01-02T00:00:00Z" 86400000000 (some "r2") none none
      (some 5) (some 86400000000) refl refl

abbrev items : List Item
items = yields (dict first) ∷ yields (dict second) ∷ []

finds_second : find_decision (by_request_id "r2") 1 items ≡ found 2 second (decision_of "h2")
unfolding find_decision
finds_second = refl

find_decision-Explains_example :
    Explains (by_decision_hash "h2") 1 items (find_decision (by_decision_hash "h2") 1 items)
find_decision-Explains_example = find_decision-Explains (by_decision_hash "h2") 1 items

abbrev hashing : Hashing
hashing = jcs_hashing (λ s. s) (λ s. s) none none

abbrev no_public_key : Option String → PublicKey
no_public_key file = no_key true "cryptography is required"

abbrev reads_nothing : Bytes → Loaded
reads_nothing b = decode_error "Expecting value"

cmd_verify-ExitsBy_example :
    ExitsBy
      (cmd_verify runtime hashing reads_nothing no_public_key
        (pair "private" "public")
        "ledger.jsonl"
        true
        (some "key.pem")
        (world good_text)).0
      (IsVerified hashing reads_nothing no_public_key
        (some "key.pem")
        "ledger.jsonl"
        (world good_text).files)
cmd_verify-ExitsBy_example =
    cmd_verify-ExitsBy runtime hashing reads_nothing no_public_key (pair "private" "public")
      "ledger.jsonl" true (world good_text) (some "key.pem")

asks_for_the_extra :
    (cmd_verify runtime hashing reads_nothing no_public_key
      (pair "private" "public")
      "ledger.jsonl"
      false
      (some "key.pem")
      (world good_text))
    ≡ (
      code 1,
      record {
        files = (world good_text).files;
        out = "";
        errors = "verify failed: cryptography is required (install \"sudoagent[crypto]\")" ∷ [];
      },
    )
unfolding cmd_verify
asks_for_the_extra = refl

keys_kept : ¬ MayWrite (keygen_args "ledger.jsonl" "key.pem" false) (world good_text) "ledger.jsonl"
keys_kept (path, inl h) = absurd (cc h)
keys_kept (path, inr h) = absurd (cc h)

main-Keeps_example :
    lookup "ledger.jsonl"
      (main runtime hashing reads_nothing no_public_key
        (pair "private" "public")
        (keygen_args "ledger.jsonl" "key.pem" false)
        (world good_text)).1.files
    ≡ some good_text
main-Keeps_example =
    main-Keeps runtime hashing reads_nothing no_public_key (pair "private" "public") "ledger.jsonl"
      (keygen_args "ledger.jsonl" "key.pem" false) (world good_text) keys_kept
