-- ===== src/Cli/Selecting.antt =====
-- cli.py: the commands that write the entries which pass a test.
use sudo_agent.Base.{String, Bool, true, false, Option, none, some, ◌||◌}
use sudo_agent.Base.Text.{contains_text}
use sudo_agent.Value.{Value, str, dict, Fields}
use sudo_agent.Value.Dict.{get}
use sudo_agent.Cli.{
  attribute_error, Attempt, ok, raises, Moment, before, Runtime, parse_timestamp, matches_filters,
}
use sudo_agent.Cli.Commands.{crashes, Command, complain, Format, if_found, write_entries}

-- A timestamp argument: none, one that cannot be read, or a moment
pub data Bound : Type 0 where
  unbound unreadable : Bound
  bound : Moment → Bound

module _ (r : Runtime) where
  abbrev pub read_bound : Option String → Bound
  read_bound none = unbound
  read_bound (some text) = readable (parse_timestamp r text)
    where
      readable : Option Moment → Bound
      readable none = unreadable
      readable (some m) = bound m

  abbrev pub in_order : Attempt Bool → Command → Command
  in_order (raises e) rest w = (crashes e, w)
  in_order (ok true) rest w = complain "--start must be <= --end" 2 w
  in_order (ok false) rest w = rest w

  abbrev pub with_bounds : Bound → Bound → (Option Moment → Option Moment → Command) → Command
  with_bounds unreadable stop rest w = complain "invalid --start timestamp" 2 w
  with_bounds start unreadable rest w = complain "invalid --end timestamp" 2 w
  with_bounds unbound unbound rest w = rest none none w
  with_bounds unbound (bound b) rest w = rest none (some b) w
  with_bounds (bound a) unbound rest w = rest (some a) none w
  with_bounds (bound a) (bound b) rest w = in_order (before b a) (rest (some a) (some b)) w

  -- The filtered entries, for bounds that were read
  abbrev pub write_filtered :
      String
      → Option String
      → Option String
      → Option String
      → Format
      → Option String
      → Option Moment
      → Option Moment
      → Command
  write_filtered ledger request_id action agent_id format output start stop =
      write_entries r "filter" ledger
        (matches_filters r (record {
          request_id = request_id;
          action = action;
          agent_id = agent_id;
          start = start;
          stop = stop;
        }))
        format output

  unfoldable pub cmd_filter :
      String
      → Option String
      → Option String
      → Option String
      → Option String
      → Option String
      → Format
      → Option String
      → Command
  unfolding write_entries
  cmd_filter ledger request_id action agent_id start stop format output = if_found r ledger (
      with_bounds (read_bound start) (read_bound stop)
        (write_filtered ledger request_id action agent_id format output))

  -- `isinstance(value, str) and query_text in value.lower()`
  abbrev pub has_query : String → Value → Bool
  has_query query (str s) = contains_text (r.lower s) query
  has_query query v = false

  abbrev pub query_fields : String → Fields → Bool
  query_fields query e =
      has_query query (get "request_id" e)
      || (has_query query (get "action" e) || has_query query (get "agent_id" e))

  -- `_matches_query`
  abbrev pub matches_query : String → Value → Attempt Bool
  matches_query query (dict e) = ok (query_fields query e)
  matches_query query v = raises attribute_error

  abbrev pub and_then : Attempt Bool → Attempt Bool → Attempt Bool
  and_then (ok true) rest = rest
  and_then (ok false) rest = ok false
  and_then (raises e) rest = raises e

  abbrev pub matches_search : String → Option Moment → Option Moment → Value → Attempt Bool
  matches_search query start stop entry = and_then (matches_query (r.lower query) entry) (
      matches_filters r
        (record { request_id = none; action = none; agent_id = none; start = start; stop = stop })
        entry)

  abbrev pub write_matched :
      String → String → Format → Option String → Option Moment → Option Moment → Command
  write_matched ledger query format output start stop =
      write_entries r "search" ledger (matches_search query start stop) format output

  unfoldable pub cmd_search :
      String → String → Option String → Option String → Format → Option String → Command
  unfolding write_entries
  cmd_search ledger query start stop format output =
      if_found r ledger (
        with_bounds (read_bound start) (read_bound stop) (write_matched ledger query format output))
