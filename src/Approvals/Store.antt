-- ===== src/Approvals/Store.antt =====
-- approvals_store.py, `class SQLiteApprovalStore`. The table has `request_id` as primary key, so it
-- is a list of rows by key; its ISO texts of UTC instants sort by time and are taken as instants.
-- The clock's readings are arguments. A statement that raises leaves what was committed before it.
pub mod Rows
pub mod Lifecycle
pub mod Rules
pub mod Deadlines
pub mod Outcomes
pub mod Sweeping
mod Gap
mod Examples
use Prim.Native.String.{◌++◌ as ◌<>◌}
use sudo_agent.Base.{
  ℕ, ◌+◌, String, Bool, true, false, Option, none, some, [], ◌∷◌, ◌&&◌, ◌||◌, not, ◌==◌, ltb,
  if◌then◌else◌,
}
use sudo_agent.Base.Dict.{Dict, lookup, contains, insert}
use sudo_agent.Approvals.Common.{
  State, pending, approved, denied, expired, failed, state_name, is_pending, same_state, Error,
  value_error, runtime_error, Result, ok, err, validate_nonempty_str, validate_state,
  cap_expires_at,
}

pub record Approval : Type 0 where
  pub policy_hash : String
  pub decision_hash : String
  pub state : State
  pub approver_id : Option String
  pub expires_at : Option ℕ
  pub created_at : ℕ
  pub resolved_at : Option ℕ

pub record Store : Type 0 where
  pub default_ttl_seconds : ℕ
  pub max_ttl_seconds : ℕ
  pub rows : Dict Approval

abbrev pub Action : Type 0 → Type 0
Action A = Store → Result A × Store

abbrev pub continue : {A B : Type 0} → Result A × Store → (A → Action B) → Result B × Store
continue (ok a, s) f = f a s
continue (err e, s) f = (err e, s)

infixl 5 ◌>>=◌ ◌>>◌
abbrev pub ◌>>=◌ : {A B : Type 0} → Action A → (A → Action B) → Action B
◌>>=◌ m f s = continue (m s) f

abbrev pub ◌>>◌ : {B : Type 0} → Action Unit → Action B → Action B
m >> k = m >>= λ _. k

abbrev pub lift : {A : Type 0} → Result A → Action A
lift r s = (r, s)

-- `expires_at IS NOT NULL AND expires_at < ?`
abbrev pub is_past : Option ℕ → ℕ → Bool
is_past none now = false
is_past (some t) now = ltb t now

abbrev pub is_stale : ℕ → Approval → Bool
is_stale now a = is_pending a.state && is_past a.expires_at now

-- `SET state = 'expired', resolved_at = ?`
abbrev pub expire : ℕ → Approval → Approval
expire now a = record a { state = expired; resolved_at = some now }

-- The rows after the `UPDATE` of `_expire_expired_with_conn`, and how many it changed.
pub expire_rows : ℕ → Dict Approval → Dict Approval
expire_rows now [] = []
expire_rows now ((k, a) ∷ rows) =
    (k, if is_stale now a then expire now a else a) ∷ expire_rows now rows

pub rowcount : ℕ → Dict Approval → ℕ
rowcount now [] = 0
rowcount now ((k, a) ∷ rows) = if is_stale now a then 1 + rowcount now rows else rowcount now rows

unfoldable pub expire_expired : ℕ → Action ℕ
unfolding expire_rows rowcount
expire_expired now s = (ok (rowcount now s.rows), record s { rows = expire_rows now s.rows })

-- The three validators that `create_pending` begins with.
abbrev pub validate_ids : String → String → String → Action Unit
validate_ids request_id policy_hash decision_hash =
    lift (validate_nonempty_str "request_id" request_id)
    >> (lift (validate_nonempty_str "policy_hash" policy_hash)
        >> lift (validate_nonempty_str "decision_hash" decision_hash))

-- `INSERT INTO approvals … ON CONFLICT(request_id) DO UPDATE SET …`; the caller has seen that an
-- existing row is pending.
abbrev pub upsert : String → String → String → ℕ → ℕ → Option Approval → Store → Store
upsert rid policy_hash decision_hash expires_at now none s = record s {
  rows =
      insert rid
        (record {
          policy_hash = policy_hash;
          decision_hash = decision_hash;
          state = pending;
          approver_id = none;
          expires_at = some expires_at;
          created_at = now;
          resolved_at = none;
        })
        s.rows;
}
upsert rid policy_hash decision_hash expires_at now (some a) s =
    if is_pending a.state
    then record s {
      rows =
          insert rid
            (record a {
              policy_hash = policy_hash;
              decision_hash = decision_hash;
              expires_at = some expires_at;
            })
            s.rows;
    }
    else s

-- `create_pending` once the row of `rid` has been looked up.
abbrev pub create_on : String → String → String → ℕ → ℕ → Option Approval → Action Unit
create_on rid policy_hash decision_hash expires_at now none s =
    (ok tt, upsert rid policy_hash decision_hash expires_at now none s)
create_on rid policy_hash decision_hash expires_at now (some a) s =
    if not (is_pending a.state)
    then (ok tt, s)
    else if not (a.policy_hash == policy_hash) || not (a.decision_hash == decision_hash)
    then (err (value_error "policy_hash/decision_hash mismatch for existing request_id"), s)
    else (ok tt, upsert rid policy_hash decision_hash expires_at now (some a) s)

abbrev pub create_row : String → String → String → Option ℕ → ℕ → Action Unit
create_row rid policy_hash decision_hash expires_at now s =
    create_on rid policy_hash decision_hash
      (cap_expires_at expires_at now s.default_ttl_seconds s.max_ttl_seconds) now
      (lookup rid s.rows) s

-- `create_pending`, the clock reading `now`
unfoldable pub create_pending : String → String → String → Option ℕ → ℕ → Action Unit
unfolding expire_expired cap_expires_at validate_nonempty_str
create_pending rid policy_hash decision_hash expires_at now = do
  validate_ids rid policy_hash decision_hash
  _ ← expire_expired now
  create_row rid policy_hash decision_hash expires_at now

-- `resolve` once the row of `rid` has been looked up.
abbrev pub resolve_on : String → State → Option String → ℕ → Option Approval → Action Unit
resolve_on rid state approver_id at none s = (err (value_error "request_id not found"), s)
resolve_on rid state approver_id at (some a) s =
    if is_pending a.state
    then (
      ok tt,
      record s {
        rows =
            insert rid
              (record a { state = state; approver_id = approver_id; resolved_at = some at }) s.rows;
      },
    )
    else if same_state a.state state
    then (ok tt, s)
    else (
      err (
          value_error (
            "invalid approval state transition: "
            <> state_name a.state
            <> " -> "
            <> state_name state)),
      s,
    )

abbrev pub at_or_now : Option ℕ → ℕ → ℕ
at_or_now none now = now
at_or_now (some t) now = t

-- `resolve`, the clock reading `now`
unfoldable pub resolve : String → String → Option String → Option ℕ → ℕ → Action Unit
unfolding validate_nonempty_str validate_state
resolve rid state approver_id resolved_at now = do
  lift (validate_nonempty_str "request_id" rid)
  new_state ← lift (validate_state state)
  λ s. resolve_on rid new_state approver_id (at_or_now resolved_at now) (lookup rid s.rows) s

-- `fetch` once the row has been read: a stale one is expired, in the table and in the result. The
-- clock reads `now` at the test and `now'` at the update.
abbrev pub fetch_on : String → ℕ → ℕ → Option Approval → Action (Option Approval)
fetch_on rid now now' none s = (ok none, s)
fetch_on rid now now' (some a) s =
    if is_stale now a
    then (ok (some (expire now' a)), record s { rows = insert rid (expire now' a) s.rows })
    else (ok (some a), s)

unfoldable pub fetch : String → ℕ → ℕ → Action (Option Approval)
unfolding validate_nonempty_str
fetch rid now now' = do
  lift (validate_nonempty_str "request_id" rid)
  λ s. fetch_on rid now now' (lookup rid s.rows) s
