-- ===== src/Cli/Receipts.antt =====
-- cli.py, `_cmd_receipt`: the receipt of the first decision that is looked up.
pub mod First
use Prim.Native.String.{◌++◌ as ◌<>◌}
use sudo_agent.Base.{
  ℕ, suc, ◌+◌, ◌≡◌, refl, String, Bool, true, false, Option, none, some, List, [], ◌∷◌, ◌++◌, ◌&&◌,
  arith, if◌then◌else◌,
}
use sudo_agent.Base.Int.{pos}
use sudo_agent.Value.{Value, int, dict, Fields, fields, is_text}
use sudo_agent.Value.Dict.{get}
use sudo_agent.Cli.{
  Failure, Attempt, ok, raises, attribute_error, Runtime, Item, yields, fails, iter_entries,
}
use sudo_agent.Cli.Commands.{
  Exit, code, crashes, World, Command, complain, open_output, write_output, text_at, if_found,
}

-- What a receipt is looked up by
pub data Target : Type 0 where
  by_request_id by_decision_hash : String → Target

-- What the loop finds: a position, counted from 1, with the entry and its decision.
pub data Search : Type 0 where
  found : ℕ → Fields → Fields → Search
  missing : Search
  failed : Failure → Search

abbrev pub is_target : Target → Fields → Fields → Bool
is_target (by_request_id x) e decision = is_text (get "request_id" e) x
is_target (by_decision_hash x) e decision = is_text (get "decision_hash" decision) x

-- The entry's decision, if the entry is a decision that is looked for
abbrev pub decision_in : Target → Fields → Value → Option Fields
decision_in t e (dict decision) = if is_target t e decision then some decision else none
decision_in t e v = none

abbrev pub match_in : Target → Fields → Option Fields
match_in t e =
    if is_text (get "event" e) "decision" then decision_in t e (get "decision" e) else none

abbrev pub or_later : ℕ → Fields → Option Fields → Search → Search
or_later idx e none later = later
or_later idx e (some decision) later = found idx e decision

-- `for idx, entry in enumerate(entries, start=1)`
unfoldable pub find_decision : Target → ℕ → List Item → Search
find_decision t idx [] = missing
find_decision t idx (fails e ∷ items) = failed e
find_decision t idx (yields (dict e) ∷ items) =
    or_later idx e (match_in t e) (find_decision t (suc idx) items)
find_decision t idx (yields v ∷ items) = failed attribute_error

abbrev pub receipt : ℕ → Fields → Fields → Fields
receipt idx e decision = fields (
    ("ledger_position", int (pos idx))
    ∷ ("schema_version", get "schema_version" e)
    ∷ ("ledger_version", get "ledger_version" e)
    ∷ ("request_id", get "request_id" e)
    ∷ ("created_at", get "created_at" e)
    ∷ ("policy_id", get "policy_id" decision)
    ∷ ("policy_hash", get "policy_hash" decision)
    ∷ ("decision_hash", get "decision_hash" decision)
    ∷ ("entry_hash", get "entry_hash" e)
    ∷ ("entry_signature", get "entry_signature" e)
    ∷ [])

-- Exactly one of the two options
abbrev pub target_of : Option String → Option String → Option Target
target_of (some x) none = some (by_request_id x)
target_of none (some x) = some (by_decision_hash x)
target_of none none = none
target_of (some x) (some y) = none

module _ (r : Runtime) where
  abbrev pub write_receipt : Option String → Search → Command
  write_receipt output missing w = complain "receipt target not found" 1 w
  write_receipt output (failed e) w = (crashes e, w)
  write_receipt output (found idx e decision) w =
      (code 0, write_output output (r.dumps (dict (receipt idx e decision)) <> "\n") w)

  abbrev pub look_up : String → Option String → Option Target → Command
  look_up ledger output none w =
      complain "provide exactly one of --request-id or --decision-hash" 2 w
  look_up ledger output (some t) w =
      write_receipt output (find_decision t 1 (iter_entries r (text_at ledger w))) w

  -- The handler around `_iter_entries` sees no error: the generator reads nothing before the loop.
  unfoldable pub cmd_receipt : String → Option String → Option String → Option String → Command
  unfolding find_decision
  cmd_receipt ledger request_id decision_hash output =
      if_found r ledger (look_up ledger output (target_of request_id decision_hash))
