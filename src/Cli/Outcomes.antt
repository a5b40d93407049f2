-- ===== src/Cli/Outcomes.antt =====
-- cli.py: how the commands end on ledgers that are also their output, that have a line that is no JSON,
-- or that are compared with a time without a time zone.
use Prim.Native.String.{◌++◌ as ◌<>◌}
use text.Mathlib.TextLemmas.{append-nil}
use sudo_agent.Base.{
  ℕ, suc, ◌≡◌, refl, ◌∙◌, ap, String, true, Option, none, some, List, [], ◌∷◌, arith, eq_iff, ◌==◌,
  false,
}
use sudo_agent.Base.Dict.{Dict, lookup, insert, contains, lookup-insert}
use sudo_agent.Ledger.Jsonl.Operations.{raw_lines}
use sudo_agent.Value.{Value, str, dict, Fields}
use sudo_agent.Value.Dict.{get}
use sudo_agent.Cli.{
  Failure, json_decode_error, type_error, Attempt, ok, aware, naive, Runtime, Item, yields, fails,
  iter_entries, flatten_entry, flatten_fields, then_attempt, parse_timestamp, matches_filters,
}
use sudo_agent.Cli.Commands.{
  code, open_output, crashes, World, Format, json, ndjson, csv, csv_fields, each, keeping,
  format_entries, write_entries, cmd_export, every, text_at,
}
use sudo_agent.Cli.Selecting.{cmd_filter}
use sudo_agent.Cli.Receipts.{Target, target_of, match_in, failed, find_decision, cmd_receipt}
use sudo_agent.Cli.Receipts.First.{Matches, match_in-Matches}

-- What an export of no entries writes
abbrev pub no_entries : Runtime → Format → String
no_entries r json = "[]\n"
no_entries r ndjson = ""
no_entries r csv = r.csv_line csv_fields

lookup-insert_self : (k v : String) (d : Dict String) → lookup k (insert k v d) ≡ some v
lookup-insert_self k v d = lookup-insert k k v d ∙ ground (arith, eq_iff k k)

-- Exporting a ledger file onto itself, in any format, ends with the exit code 0 and leaves an export of
-- no entries in place of the ledger, whatever entries it had.
pub cmd_export-no_entries :
    (r : Runtime) (ledger : String) (format : Format) (w : World)
    → contains ledger w.files ≡ true
    → ((cmd_export r ledger format (some ledger) w).0 ≡ code 0)
      × (lookup ledger (cmd_export r ledger format (some ledger) w).1.files
          ≡ some (no_entries r format))
unfolding cmd_export write_entries iter_entries raw_lines keeping format_entries each
cmd_export-no_entries r ledger json w there =
    rw (there, lookup-insert_self ledger "" w.files) (refl, lookup-insert_self ledger _ _)
cmd_export-no_entries r ledger ndjson w there =
    rw (there, lookup-insert_self ledger "" w.files) (refl, lookup-insert_self ledger _ _)
cmd_export-no_entries r ledger csv w there =
    rw (there, lookup-insert_self ledger "" w.files)
      (refl, lookup-insert_self ledger _ _ ∙ ap (λ s. some s) (append-nil (r.csv_line csv_fields)))

-- The entries before a line that is no JSON, as they are read
abbrev pub yielded : List Fields → List Item → List Item
yielded [] rest = rest
yielded (e ∷ entries) rest = yields (dict e) ∷ yielded entries rest

abbrev pub NoneMatches : Target → List Fields → Type 0
NoneMatches t [] = Unit
NoneMatches t (e ∷ entries) = ((decision : Fields) → ¬ Matches t e decision) × NoneMatches t entries

match_in-none :
    (t : Target) (e : Fields) → ((decision : Fields) → ¬ Matches t e decision) → match_in t e ≡ none
match_in-none t e h = not_some (match_in t e) (λ d same. h d (match_in-Matches t e d same))
  where
    not_some : (m : Option Fields) → ((d : Fields) → ¬ (m ≡ some d)) → m ≡ none
    not_some none k = refl
    not_some (some d) k = absurd (k d refl)

find_decision-yielded :
    (t : Target) (n : ℕ) (entries : List Fields) (f : Failure) (rest : List Item)
    → NoneMatches t entries
    → find_decision t n (yielded entries (fails f ∷ rest)) ≡ failed f
unfolding find_decision
find_decision-yielded t n [] f rest h = refl
find_decision-yielded t n (e ∷ entries) f rest (h, hs) =
    rw (match_in-none t e h) (find_decision-yielded t (suc n) entries f rest hs)

keeping-yielded :
    (r : Runtime) (entries : List Fields) (f : Failure) (rest : List Item)
    → keeping (every r) (yielded entries (fails f ∷ rest)) ≡ yielded entries (fails f ∷ [])
unfolding keeping
keeping-yielded r [] f rest = refl
keeping-yielded r (e ∷ entries) f rest =
    ap (◌∷◌ (yields (dict e))) (keeping-yielded r entries f rest)

each-yielded :
    (show : Value → Attempt String) (text : Fields → String) (stop : String) (entries : List Fields)
    (f : Failure)
    → ((e : Fields) → show (dict e) ≡ ok (text e))
    → (each show stop (yielded entries (fails f ∷ []))).1 ≡ some f
unfolding each
each-yielded show text stop [] f h = refl
each-yielded show text stop (e ∷ entries) f h = rw (h e) (each-yielded show text stop entries f h)

format_entries-yielded :
    (r : Runtime) (format : Format) (entries : List Fields) (f : Failure)
    → (format_entries r format (yielded entries (fails f ∷ []))).1 ≡ some f
unfolding format_entries each
format_entries-yielded r json [] f = refl
format_entries-yielded r json (e ∷ entries) f =
    each-yielded (λ v. ok ("," <> r.dumps v)) (λ d. "," <> r.dumps (dict d)) "]\n" entries f
      (λ d. refl)
format_entries-yielded r ndjson entries f =
    each-yielded (λ v. ok (r.dumps_compact v <> "\n")) (λ d. r.dumps_compact (dict d) <> "\n") ""
      entries f (λ d. refl)
format_entries-yielded r csv entries f =
    each-yielded (λ v. then_attempt (flatten_entry r v) λ row. ok (r.csv_line row))
      (λ d. r.csv_line (flatten_fields r d)) "" entries f (λ d. refl)

-- Standard output, or a file at another path than the ledger
abbrev pub IsOther : String → Option String → Type 0
IsOther ledger none = Unit
IsOther ledger (some path) = (path == ledger) ≡ false

text_at-open_output :
    (ledger : String) (output : Option String) (w : World)
    → IsOther ledger output
    → text_at ledger (open_output output w) ≡ text_at ledger w
text_at-open_output ledger none w other = refl
text_at-open_output ledger (some path) w other =
    rw (lookup-insert path ledger "" w.files, other) refl

-- Where a line of the ledger is no JSON, the lines before it are entries and none of them is the
-- decision that is looked for, by its request id or by its hash: looking up its receipt crashes with
-- the `JSONDecodeError`, and exporting the ledger, in any format, to standard output or to a file at
-- another path ends with the exit code 1.
pub cmd_receipt-crashes :
    (r : Runtime) (ledger m : String) (request_id decision_hash : Option String) (t : Target)
    (receipt_output output : Option String) (format : Format) (entries : List Fields)
    (rest : List Item) (w : World)
    → target_of request_id decision_hash ≡ some t
    → IsOther ledger output
    → contains ledger w.files ≡ true
    → iter_entries r (text_at ledger w) ≡ yielded entries (fails (json_decode_error m) ∷ rest)
    → NoneMatches t entries
    → ((cmd_receipt r ledger request_id decision_hash receipt_output w).0
        ≡ crashes (json_decode_error m))
      × ((cmd_export r ledger format output w).0 ≡ code 1)
unfolding cmd_receipt cmd_export write_entries
cmd_receipt-crashes r ledger m request_id decision_hash t receipt_output output format entries rest
      w target other there read h =
    let f = json_decode_error m in
    let receipt = find_decision-yielded t 1 entries f rest h in
    let export = format_entries-yielded r format entries f in
    rw
      (
        there,
        text_at-open_output ledger output w other,
        target,
        read,
        receipt,
        keeping-yielded r entries f rest,
        export,
      )
      (refl, refl)

format_entries-fails :
    (r : Runtime) (format : Format) (f : Failure)
    → (format_entries r format (fails f ∷ [])).1 ≡ some f
unfolding format_entries each
format_entries-fails r json f = refl
format_entries-fails r ndjson f = refl
format_entries-fails r csv f = refl

-- Where `--start` is a time that can be read and has no time zone, and the first entry of the ledger
-- has a `created_at` with one: filtering by it crashes with a `TypeError`.
pub cmd_filter-crashes :
    (r : Runtime) (ledger start created : String) (a t : ℕ) (format : Format) (e : Fields)
    (rest : List Item) (w : World)
    → contains ledger w.files ≡ true
    → parse_timestamp r start ≡ some (naive a)
    → iter_entries r (text_at ledger w) ≡ yields (dict e) ∷ rest
    → get "created_at" e ≡ str created
    → parse_timestamp r created ≡ some (aware t)
    → (cmd_filter r ledger none none none (some start) none format none w).0 ≡ crashes type_error
unfolding cmd_filter write_entries keeping matches_filters
cmd_filter-crashes r ledger start created a t format e rest w there read items at_created parsed =
    rw (there, read, items, at_created, parsed, format_entries-fails r format type_error) refl
