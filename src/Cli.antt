-- ===== src/Cli.antt =====
-- cli.py: the entries of a ledger file as they are read one after another, the filters on them and the
-- formats that they are written in.
pub mod Commands
pub mod Selecting
pub mod Main
pub mod Filtering
pub mod Receipts
pub mod Keeping
pub mod Outcomes
pub mod Verifying
mod Examples
use Prim.Native.String.{[] as empty, ◌∷◌ as ◌▸◌, ◌++◌ as ◌<>◌}
use sudo_agent.Base.{
  ℕ, String, Bool, true, false, Option, none, some, List, [], ◌∷◌, ◌==◌, ◌||◌, ltb, is_some,
  if◌then◌else◌,
}
use sudo_agent.Base.Text.{strip}
use sudo_agent.Value.{Value, null, str, dict, Fields, end, is_text}
use sudo_agent.Value.Dict.{get}
use sudo_agent.Ledger.Jsonl.Operations.{raw_lines}

-- What a command raises: a `JSONDecodeError` with its message, or another exception by its class.
pub data Failure : Type 0 where
  json_decode_error : String → Failure
  type_error attribute_error value_error : Failure

pub data Attempt (A : Type 0) : Type 0 where
  ok : A → Attempt A
  raises : Failure → Attempt A

abbrev pub then_attempt : {A B : Type 0} → Attempt A → (A → Attempt B) → Attempt B
then_attempt (ok a) f = f a
then_attempt (raises e) f = raises e

-- A `datetime`, in microseconds: with a time zone, as an instant, or without one.
pub data Moment : Type 0 where
  aware naive : ℕ → Moment

-- `a < b`, which raises where only one of them has a time zone
abbrev pub before : Moment → Moment → Attempt Bool
before (aware a) (aware b) = ok (ltb a b)
before (naive a) (naive b) = ok (ltb a b)
before (aware a) (naive b) = raises type_error
before (naive a) (aware b) = raises type_error

-- What the commands call of the standard library: `json.loads`, `json.dumps` with the default
-- separators and with the compact ones, `csv.DictWriter`'s line of some texts, `str` of a value,
-- `datetime.fromisoformat` and `str.lower`.
pub record Runtime : Type 0 where
  pub loads : String → Attempt Value
  pub dumps : Value → String
  pub dumps_compact : Value → String
  pub csv_line : List String → String
  pub str_of : Value → String
  pub fromisoformat : String → Option Moment
  pub lower : String → String

-- `entry.get(k)`
abbrev pub get_from : String → Value → Attempt Value
get_from k (dict d) = ok (get k d)
get_from k v = raises attribute_error

-- A value that is no dict counts as an empty one.
abbrev pub dict_or_empty : Value → Fields
dict_or_empty (dict d) = d
dict_or_empty v = end

-- `text.endswith("Z")`, and the text with the suffix that `fromisoformat` reads
abbrev pub with_offset : String → String
with_offset empty = empty
with_offset (c ▸ empty) = if (c ▸ empty) == "Z" then "+00:00" else c ▸ empty
with_offset (c ▸ (d ▸ s)) = c ▸ with_offset (d ▸ s)

-- What a generator yields, or raises; nothing comes after what it raises.
pub data Item : Type 0 where
  yields : Value → Item
  fails : Failure → Item

abbrev pub item_of : Attempt Value → Item
item_of (ok v) = yields v
item_of (raises e) = fails e

-- A comparison with a bound, if there is one
abbrev pub within : Option Moment → (Moment → Attempt Bool) → Attempt Bool → Attempt Bool
within none outside rest = rest
within (some m) outside rest = then_attempt (outside m) λ out. if out then ok false else rest

-- The filters' arguments: `request_id`, `action`, `agent_id`, `start` and `end`
pub record Filters : Type 0 where
  pub request_id : Option String
  pub action : Option String
  pub agent_id : Option String
  pub start : Option Moment
  pub stop : Option Moment

-- The part of `_matches_filters` on `created_at`
abbrev pub in_range : Filters → Option Moment → Attempt Bool
in_range f none = ok false
in_range f (some parsed) =
    within f.start (before parsed) (within f.stop (λ m. before m parsed) (ok true))

-- `x is not None and entry.get(k) != x`: `False`, or the rest
abbrev pub unless_other : Option String → String → Value → Attempt Bool → Attempt Bool
unless_other none k entry rest = rest
unless_other (some x) k entry rest =
    then_attempt (get_from k entry) λ v. if is_text v x then rest else ok false

module _ (r : Runtime) where
  unfoldable pub parse_timestamp : String → Option Moment
  parse_timestamp value = r.fromisoformat (with_offset (strip value))

  -- `_iter_entries`, on the lines of the file's text
  abbrev pub entry_lines : List String → List Item
  entry_lines [] = []
  entry_lines (l ∷ lines) =
      let rest = entry_lines lines in
      if strip l == "" then rest else item_of (r.loads (strip l)) ∷ rest

  unfoldable pub iter_entries : String → List Item
  unfolding raw_lines
  iter_entries text = entry_lines (raw_lines text)

  -- `_stringify`
  abbrev pub stringify : Value → String
  stringify null = ""
  stringify v = r.str_of v

  -- `_flatten_entry`: the texts under `CSV_FIELDS`, in their order
  abbrev pub flatten_fields : Fields → List String
  flatten_fields e =
      let decision = dict_or_empty (get "decision" e) in
      let outcome = dict_or_empty (get "outcome" e) in
      stringify (get "created_at" e)
      ∷ stringify (get "event" e)
      ∷ stringify (get "action" e)
      ∷ stringify (get "request_id" e)
      ∷ stringify (get "agent_id" e)
      ∷ stringify (get "decision_hash" decision)
      ∷ stringify (get "policy_id" decision)
      ∷ stringify (get "policy_hash" decision)
      ∷ stringify (get "effect" decision)
      ∷ stringify (get "status" outcome)
      ∷ stringify (get "reason" decision)
      ∷ stringify (get "reason_code" decision)
      ∷ []

  abbrev pub flatten_entry : Value → Attempt (List String)
  flatten_entry (dict e) = ok (flatten_fields e)
  flatten_entry v = raises attribute_error

  abbrev pub created_in_range : Filters → Value → Attempt Bool
  created_in_range f (str created_at) = in_range f (parse_timestamp created_at)
  created_in_range f v = ok false

  abbrev pub matches_time : Filters → Value → Attempt Bool
  matches_time f entry =
      if is_some f.start || is_some f.stop
      then then_attempt (get_from "created_at" entry) (created_in_range f)
      else ok true

  unfoldable pub matches_filters : Filters → Value → Attempt Bool
  unfolding parse_timestamp
  matches_filters f entry = unless_other f.request_id "request_id" entry (
      unless_other f.action "action" entry
        (unless_other f.agent_id "agent_id" entry (matches_time f entry)))
