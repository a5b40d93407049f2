-- ===== src/Cli/Keeping.antt =====
-- cli.py: the parts of the commands that leave a file as it is.
pub mod Commands
use sudo_agent.Base.{
  ℕ, ◌≡◌, refl, sym, ◌∙◌, ap, String, Bool, true, false, Option, none, some, List, [], ◌∷◌, arith,
  eq_iff, ◌==◌, Bool-cases, inl, inr, ◌⊎◌, if◌then◌else◌, ◌&&◌, ◌||◌, not,
}
use sudo_agent.Base.Dict.{Dict, lookup, insert, contains, lookup-insert}
use sudo_agent.Value.{Value}
use sudo_agent.Ledger.Chain.{Hashing}
use sudo_agent.Ledger.Jsonl.{Bytes}
use sudo_agent.Ledger.Jsonl.Operations.{Loaded, Completion, returned, raised, verify}
use sudo_agent.Cli.{
  Failure, json_decode_error, type_error, attribute_error, value_error, Attempt, ok, raises, Moment,
  before, Runtime, Filters,
}
use sudo_agent.Cli.Commands.{
  Exit, code, crashes, World, Command, complain, Format, Written, open_output, write_output, caught,
  finish, write_entries, if_found, cmd_export, every,
}
use sudo_agent.Cli.Selecting.{
  Bound, unbound, unreadable, bound, in_order, with_bounds, read_bound, cmd_filter, cmd_search,
  write_filtered, write_matched, matches_search,
}
use sudo_agent.Cli.Receipts.{
  Target, Search, found, missing, failed, write_receipt, look_up, target_of, cmd_receipt,
}
use sudo_agent.Cli.Main.{
  PublicKey, key, no_key, KeyPair, pair, no_pair, Arguments, verify_args, export_args, filter_args,
  search_args, keygen_args, receipt_args, report_failure, report_verdict, verify_with, cmd_verify,
  write_keys, cmd_keygen, main,
}

-- The command leaves the file at `k` as it is, if it is one.
abbrev pub Keeps : String → Command → Type 0
Keeps k c = (w : World) → lookup k (c w).1.files ≡ lookup k w.files

abbrev pub IsOther : Option String → String → Type 0
IsOther none k = Unit
IsOther (some path) k = (path == k) ≡ false

pub insert_other :
    (k path text : String) (files : Dict String)
    → (path == k) ≡ false
    → lookup k (insert path text files) ≡ lookup k files
insert_other k path text files other = rw (lookup-insert path k text files, other) refl

pub open_output-Keeps :
    (k : String) (output : Option String) (w : World)
    → IsOther output k
    → lookup k (open_output output w).files ≡ lookup k w.files
open_output-Keeps k none w other = refl
open_output-Keeps k (some path) w other = insert_other k path "" w.files other

pub write_output-Keeps :
    (k : String) (output : Option String) (text : String) (w : World)
    → IsOther output k
    → lookup k (write_output output text w).files ≡ lookup k w.files
write_output-Keeps k none text w other = refl
write_output-Keeps k (some path) text w other = insert_other k path text w.files other

pub either-Keeps :
    (k : String) (b : Bool) (x y : Exit × World) (before : Option String)
    → lookup k x.1.files ≡ before
    → lookup k y.1.files ≡ before
    → lookup k (if b then x else y).1.files ≡ before
either-Keeps k true x y before left right = left
either-Keeps k false x y before left right = right

module _ (r : Runtime) (k : String) where
  pub caught-Keeps : (name : String) (f : Option Failure) → Keeps k (caught r name f)
  caught-Keeps name none w = refl
  caught-Keeps name (some (json_decode_error m)) w = refl
  caught-Keeps name (some type_error) w = refl
  caught-Keeps name (some attribute_error) w = refl
  caught-Keeps name (some value_error) w = refl

  pub write_entries-Keeps :
      (name ledger : String) (test : Value → Attempt Bool) (format : Format)
      (output : Option String)
      → IsOther output k
      → Keeps k (write_entries r name ledger test format output)
  unfolding write_entries
  write_entries-Keeps name ledger test format output other w =
      caught-Keeps name _ _
      ∙ write_output-Keeps k output _ _ other
      ∙ open_output-Keeps k output w other

  pub if_found-Keeps :
      (ledger : String) (rest : Command) → Keeps k rest → Keeps k (if_found r ledger rest)
  if_found-Keeps ledger rest keeps w = either-Keeps k (contains ledger w.files) _ _ _ (keeps w) refl

  pub in_order-Keeps :
      (a : Attempt Bool) (rest : Command) → Keeps k rest → Keeps k (in_order r a rest)
  in_order-Keeps (raises e) rest keeps w = refl
  in_order-Keeps (ok true) rest keeps w = refl
  in_order-Keeps (ok false) rest keeps w = keeps w

  pub with_bounds-Keeps :
      (start stop : Bound) (rest : Option Moment → Option Moment → Command)
      → ((a b : Option Moment) → Keeps k (rest a b))
      → Keeps k (with_bounds r start stop rest)
  with_bounds-Keeps unreadable stop rest keeps w = refl
  with_bounds-Keeps unbound unreadable rest keeps w = refl
  with_bounds-Keeps (bound a) unreadable rest keeps w = refl
  with_bounds-Keeps unbound unbound rest keeps w = keeps none none w
  with_bounds-Keeps unbound (bound b) rest keeps w = keeps none (some b) w
  with_bounds-Keeps (bound a) unbound rest keeps w = keeps (some a) none w
  with_bounds-Keeps (bound a) (bound b) rest keeps w =
      in_order-Keeps (before b a) (rest (some a) (some b)) (keeps (some a) (some b)) w

  pub bounded-Keeps :
      (ledger : String) (start stop : Option String)
      (rest : Option Moment → Option Moment → Command)
      → ((a b : Option Moment) → Keeps k (rest a b))
      → Keeps k (if_found r ledger (with_bounds r (read_bound r start) (read_bound r stop) rest))
  bounded-Keeps ledger start stop rest keeps =
      if_found-Keeps ledger (with_bounds r (read_bound r start) (read_bound r stop) rest)
        (with_bounds-Keeps (read_bound r start) (read_bound r stop) rest keeps)

  pub write_receipt-Keeps :
      (output : Option String) (s : Search) → IsOther output k → Keeps k (write_receipt r output s)
  write_receipt-Keeps output missing other w = refl
  write_receipt-Keeps output (failed e) other w = refl
  write_receipt-Keeps output (found idx e decision) other w = write_output-Keeps k output _ w other

  pub look_up-Keeps :
      (ledger : String) (output : Option String) (t : Option Target)
      → IsOther output k
      → Keeps k (look_up r ledger output t)
  look_up-Keeps ledger output none other w = refl
  look_up-Keeps ledger output (some t) other w = write_receipt-Keeps output _ other w

  pub report_failure-Keeps :
      (json_output : Bool) (m : String) → Keeps k (report_failure r json_output m)
  report_failure-Keeps true m w = refl
  report_failure-Keeps false m w = refl

  pub report_verdict-Keeps :
      (json_output : Bool) (v : Completion Unit) → Keeps k (report_verdict r json_output v)
  report_verdict-Keeps json_output (raised e) w = report_failure-Keeps json_output _ w
  report_verdict-Keeps true (returned u) w = refl
  report_verdict-Keeps false (returned u) w = refl
