-- ===== src/Cli/Commands.antt =====
-- cli.py: how the commands write entries, and `export`. The file system is a dictionary from paths to texts; opening a file to write
-- empties it, and a generator opens its file when its first entry is asked for.
use Prim.Native.String.{◌++◌ as ◌<>◌}
use sudo_agent.Base.{
  ℕ, String, Bool, true, false, Option, none, some, List, [], ◌∷◌, ◌++◌, if◌then◌else◌,
}
use sudo_agent.Base.Dict.{Dict, lookup, insert, contains}
use sudo_agent.Value.{Value}
use sudo_agent.Cli.{
  Failure, json_decode_error, type_error, attribute_error, value_error, Attempt, ok, raises,
  then_attempt, Runtime, Item, yields, fails, iter_entries, flatten_entry,
}

-- How a command ends: with an exit code, or with an exception that it does not catch.
pub data Exit : Type 0 where
  code : ℕ → Exit
  crashes : Failure → Exit

-- The files, what was printed, and the lines on the error stream
pub record World : Type 0 where
  pub files : Dict String
  pub out : String
  pub errors : List String

abbrev pub Command : Type 0
Command = World → Exit × World

abbrev pub complain : String → ℕ → Command
complain message n w = (code n, record w { errors = w.errors ++ message ∷ [] })

-- A text that was written before a failure, if there is one
abbrev pub Written : Type 0
Written = String × Option Failure

abbrev pub prepend : String → Written → Written
prepend s (t, f) = (s <> t, f)

-- The items that a filtering generator yields.
unfoldable pub keeping : (Value → Attempt Bool) → List Item → List Item
keeping test [] = []
keeping test (fails e ∷ items) = fails e ∷ []
keeping test (yields v ∷ items) = kept (test v) v (keeping test items)
  where
    kept : Attempt Bool → Value → List Item → List Item
    kept (ok true) v rest = yields v ∷ rest
    kept (ok false) v rest = rest
    kept (raises e) v rest = fails e ∷ []

-- Each entry's text, up to the first failure, and then the end.
unfoldable pub each : (Value → Attempt String) → String → List Item → Written
each show stop [] = (stop, none)
each show stop (fails e ∷ items) = ("", some e)
each show stop (yields v ∷ items) = shown (show v) (each show stop items)
  where
    shown : Attempt String → Written → Written
    shown (ok s) rest = prepend s rest
    shown (raises e) rest = ("", some e)

pub data Format : Type 0 where
  json ndjson csv : Format

abbrev pub csv_fields : List String
csv_fields =
    "created_at" ∷ "event" ∷ "action" ∷ "request_id" ∷ "agent_id" ∷ "decision_hash" ∷ "policy_id"
    ∷ "policy_hash" ∷ "decision_effect" ∷ "outcome_status" ∷ "reason" ∷ "reason_code" ∷ []

-- Where the output goes: to a file that is opened anew, or to the standard output.
abbrev pub open_output : Option String → World → World
open_output none w = w
open_output (some path) w = record w { files = insert path "" w.files }

abbrev pub write_output : Option String → String → World → World
write_output none text w = record w { out = w.out <> text }
write_output (some path) text w = record w { files = insert path text w.files }

abbrev pub text_at : String → World → String
text_at path w = text_or_empty (lookup path w.files)
  where
    text_or_empty : Option String → String
    text_or_empty none = ""
    text_or_empty (some t) = t

module _ (r : Runtime) where
  -- The array's entries after the first one
  abbrev pub json_rest : List Item → Written
  json_rest = each (λ v. ok ("," <> r.dumps v)) "]\n"

  abbrev pub json_array : List Item → Written
  json_array [] = ("]\n", none)
  json_array (fails e ∷ items) = ("", some e)
  json_array (yields v ∷ items) = prepend (r.dumps v) (json_rest items)

  -- The text that `_write_entries` writes
  unfoldable pub format_entries : Format → List Item → Written
  unfolding each
  format_entries json items = prepend "[" (json_array items)
  format_entries ndjson items = each (λ v. ok (r.dumps_compact v <> "\n")) "" items
  format_entries csv items =
      prepend (r.csv_line csv_fields)
        (each (λ v. then_attempt (flatten_entry r v) λ row. ok (r.csv_line row)) "" items)

  -- `except (OSError, json.JSONDecodeError) as exc`
  abbrev pub caught : String → Option Failure → Command
  caught name none w = (code 0, w)
  caught name (some (json_decode_error m)) w = complain (name <> " failed: " <> m) 1 w
  caught name (some type_error) w = (crashes type_error, w)
  caught name (some attribute_error) w = (crashes attribute_error, w)
  caught name (some value_error) w = (crashes value_error, w)

  abbrev pub finish : String → Option String → Written → Command
  finish name output (text, failure) w = caught name failure (write_output output text w)

  -- `_write_entries` under the handler of the command `name`, of the entries of a file that pass a test
  unfoldable pub write_entries :
      String → String → (Value → Attempt Bool) → Format → Option String → Command
  unfolding format_entries keeping
  write_entries name ledger test format output w =
      let w' = open_output output w in
      finish name output (format_entries format (keeping test (iter_entries r (text_at ledger w'))))
        w'

  -- `if not ledger_path.exists()`
  abbrev pub if_found : String → Command → Command
  if_found ledger rest w =
      if contains ledger w.files then rest w else complain "ledger file not found" 1 w

  abbrev pub every : Value → Attempt Bool
  every v = ok true

  unfoldable pub cmd_export : String → Format → Option String → Command
  unfolding write_entries
  cmd_export ledger format output =
      if_found ledger (write_entries "export" ledger every format output)
