-- ===== src/Cli/Filtering.antt =====
-- cli.py, `_matches_filters` and `_cmd_filter`: what the filters let pass, and how filtering meets
-- exporting.
use sudo_agent.Base.{
  ℕ, ◌≤◌, ◌≡◌, ◌↔◌, refl, String, Bool, true, false, Option, none, some, arith, eq_iff, ltb,
  if◌then◌else◌,
}
use sudo_agent.Base.Dict.{contains}
use sudo_agent.Value.{Value, str, dict, Fields, is_text, is_text-str}
use sudo_agent.Value.Dict.{get}
use sudo_agent.Cli.{
  Failure, json_decode_error, type_error, attribute_error, value_error, Attempt, ok, Moment, aware,
  before, Runtime, Filters, parse_timestamp, unless_other, matches_time, in_range, matches_filters,
  within,
}
use sudo_agent.Cli.Commands.{Exit, World, Format, caught, write_entries, every, cmd_export}
use sudo_agent.Cli.Selecting.{cmd_filter}

-- The same exit, files and output; the lines on the error stream may differ.
abbrev pub SameRun : Exit × World → Exit × World → Type 0
SameRun (x, w) (y, v) = (x ≡ y) × (w.files ≡ v.files) × (w.out ≡ v.out)

caught-SameRun :
    (r : Runtime) (a b : String) (f : Option Failure) (w : World)
    → SameRun (caught r a f w) (caught r b f w)
caught-SameRun r a b none w = (refl, refl, refl)
caught-SameRun r a b (some (json_decode_error m)) w = (refl, refl, refl)
caught-SameRun r a b (some type_error) w = (refl, refl, refl)
caught-SameRun r a b (some attribute_error) w = (refl, refl, refl)
caught-SameRun r a b (some value_error) w = (refl, refl, refl)

write_entries-SameRun :
    (r : Runtime) (a b ledger : String) (test : Value → Attempt Bool) (format : Format)
    (output : Option String) (w : World)
    → SameRun
        (write_entries r a ledger test format output w)
        (write_entries r b ledger test format output w)
unfolding write_entries
write_entries-SameRun r a b ledger test format output w = caught-SameRun r a b _ _

either_SameRun :
    (b : Bool) (x y z : Exit × World)
    → SameRun x y
    → SameRun (if b then x else z) (if b then y else z)
either_SameRun true x y z same = same
either_SameRun false x y z same = (refl, refl, refl)

-- With no filter, `filter` leaves the files and the output that `export` leaves, and ends as it does.
pub cmd_filter-SameRun :
    (r : Runtime) (ledger : String) (format : Format) (output : Option String) (w : World)
    → SameRun
        (cmd_filter r ledger none none none none none format output w)
        (cmd_export r ledger format output w)
unfolding cmd_filter cmd_export matches_filters
cmd_filter-SameRun r ledger format output w =
    either_SameRun (contains ledger w.files) _ _ _
      (write_entries-SameRun r "filter" "export" ledger (every r) format output w)

-- The entry's value under `k` is the one that is asked for, if one is.
abbrev pub Agrees : Option String → String → Fields → Type 0
Agrees none k e = Unit
Agrees (some x) k e = get k e ≡ str x

abbrev pub NotBefore : Option ℕ → ℕ → Type 0
NotBefore none t = Unit
NotBefore (some a) t = a ≤ t

abbrev pub NotAfter : Option ℕ → ℕ → Type 0
NotAfter none t = Unit
NotAfter (some b) t = t ≤ b

-- A bound with a time zone
abbrev pub instant : Option ℕ → Option Moment
instant none = none
instant (some a) = some (aware a)

unless_ok :
    (b : Bool) (rest : Attempt Bool)
    → (if b then rest else ok false) ≡ ok true
    → (b ≡ true) × (rest ≡ ok true)
unless_ok true rest h = (refl, h)
unless_ok false rest h = absurd (cc h)

unless_other_iff :
    (o : Option String) (k : String) (e : Fields) (rest : Attempt Bool)
    → (unless_other o k (dict e) rest ≡ ok true) ↔ (Agrees o k e × (rest ≡ ok true))
unless_other_iff none k e rest = (λ h. (tt, h), λ h. h.1)
unless_other_iff (some x) k e rest = (
  (λ h.
      let (same, good) = unless_ok (is_text (get k e) x) rest h in
      (is_text-str (get k e) x same, good)),
  (λ h. rw h.0 (ground (arith, eq_iff x x, h.1))),
)

unless_early :
    (b : Bool) (rest : Attempt Bool)
    → (if b then ok false else rest) ≡ ok true
    → (b ≡ false) × (rest ≡ ok true)
unless_early true rest h = absurd (cc h)
unless_early false rest h = (refl, h)

within_start_iff :
    (start : Option ℕ) (t : ℕ) (rest : Attempt Bool)
    → (within (instant start) (before (aware t)) rest ≡ ok true)
      ↔ (NotBefore start t × (rest ≡ ok true))
within_start_iff none t rest = (λ h. (tt, h), λ h. h.1)
within_start_iff (some a) t rest = (
  (λ h. let (early, good) = unless_early (ltb t a) rest h in (ground (arith, early), good)),
  (λ h. ground (arith, h.0, h.1)),
)

within_stop_iff :
    (stop : Option ℕ) (t : ℕ) (rest : Attempt Bool)
    → (within (instant stop) (λ m. before m (aware t)) rest ≡ ok true)
      ↔ (NotAfter stop t × (rest ≡ ok true))
within_stop_iff none t rest = (λ h. (tt, h), λ h. h.1)
within_stop_iff (some a) t rest = (
  (λ h. let (late, good) = unless_early (ltb a t) rest h in (ground (arith, late), good)),
  (λ h. ground (arith, h.0, h.1)),
)

in_range_iff :
    (f : Filters) (start stop : Option ℕ) (t : ℕ)
    → f.start ≡ instant start
    → f.stop ≡ instant stop
    → (in_range f (some (aware t)) ≡ ok true) ↔ (NotBefore start t × NotAfter stop t)
in_range_iff f start stop t from to =
    rw (from, to)
      (
        (λ h.
            let (after, rest) = (within_start_iff start t _).0 h in
            (after, ((within_stop_iff stop t (ok true)).0 rest).0)),
        (λ h.
            (within_start_iff start t _).1 (h.0, (within_stop_iff stop t (ok true)).1 (h.1, refl))),
      )

abbrev pub filters : (request_id action agent_id : Option String) → Option ℕ → Option ℕ → Filters
filters request_id action agent_id start stop = record {
  request_id = request_id;
  action = action;
  agent_id = agent_id;
  start = instant start;
  stop = instant stop;
}

module _ (r : Runtime) (e : Fields) (created : String) (t : ℕ) where
  matches_time_iff :
      (x y z : Option String) (start stop : Option ℕ)
      → get "created_at" e ≡ str created
      → parse_timestamp r created ≡ some (aware t)
      → (matches_time r (filters x y z start stop) (dict e) ≡ ok true)
        ↔ (NotBefore start t × NotAfter stop t)
  matches_time_iff x y z none none at_created parsed = ((λ h. (tt, tt)), (λ h. refl))
  matches_time_iff x y z none (some b) at_created parsed =
      rw (at_created, parsed) (in_range_iff (filters x y z none (some b)) none (some b) t refl refl)
  matches_time_iff x y z (some a) stop at_created parsed =
      rw (at_created, parsed) (in_range_iff (filters x y z (some a) stop) (some a) stop t refl refl)

  -- For an entry whose `created_at` can be read and has a time zone, as the bounds have, the filters
  -- let it pass exactly where each value that is asked for is the entry's and its time is from
  -- `start` to `stop`, both included.
  pub matches_filters_iff :
      (request_id action agent_id : Option String) (start stop : Option ℕ)
      → get "created_at" e ≡ str created
      → parse_timestamp r created ≡ some (aware t)
      → (matches_filters r (filters request_id action agent_id start stop) (dict e) ≡ ok true) ↔ (
          Agrees request_id "request_id" e
          × Agrees action "action" e
          × Agrees agent_id "agent_id" e
          × NotBefore start t
          × NotAfter stop t)
  unfolding matches_filters
  matches_filters_iff request_id action agent_id start stop at_created parsed =
      let time = matches_time_iff request_id action agent_id start stop at_created parsed in
      (
        (λ h.
            let (a, h') = (unless_other_iff request_id "request_id" e _).0 h in
            let (b, h'') = (unless_other_iff action "action" e _).0 h' in
            let (c, good) = (unless_other_iff agent_id "agent_id" e _).0 h'' in
            let (after, earlier) = time.0 good in (a, b, c, after, earlier)),
        (λ (a, b, c, after, earlier). (unless_other_iff request_id "request_id" e _).1 (
          a,
          (unless_other_iff action "action" e _).1
              (b, (unless_other_iff agent_id "agent_id" e _).1 (c, time.1 (after, earlier))),
        )),
      )
