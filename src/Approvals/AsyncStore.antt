-- ===== src/Approvals/AsyncStore.antt =====
-- approvals/async_store.py, `class AsyncSQLiteApprovalStore`, over the same table. `fetch` and
-- `expire_expired` run the statements of the sync store; `initialize` creates the table.
pub mod Comparison
pub mod Database
mod Examples
use sudo_agent.Base.{ℕ, String, Option, none, some, ◌&&◌, ◌||◌, not, ◌==◌, if◌then◌else◌}
use sudo_agent.Base.Dict.{lookup, insert}
use sudo_agent.Approvals.Common.{
  State, pending, is_pending, value_error, runtime_error, ok, err, validate_nonempty_str,
  validate_state, cap_expires_at,
}
use sudo_agent.Approvals.Store.{
  Approval, Store, Action, lift, ◌>>=◌, ◌>>◌, validate_ids, upsert, at_or_now,
}

-- The `INSERT … ON CONFLICT(request_id) DO UPDATE … WHERE` of `create_pending`.
abbrev pub guarded_upsert : String → String → String → ℕ → ℕ → Option Approval → Store → Store
guarded_upsert rid policy_hash decision_hash at now none s =
    upsert rid policy_hash decision_hash at now none s
guarded_upsert rid policy_hash decision_hash at now (some a) s =
    if is_pending a.state && (a.policy_hash == policy_hash && a.decision_hash == decision_hash)
    then record s {
      rows =
          insert rid
            (record a {
              policy_hash = policy_hash;
              decision_hash = decision_hash;
              expires_at = some at;
            })
            s.rows;
    }
    else s

-- What `create_pending` makes of the row that it reads back; raising rolls the insert back to `s`.
abbrev pub confirm : String → String → Option Approval → Store → Action Unit
confirm policy_hash decision_hash none s s' =
    (err (runtime_error "failed to create pending approval"), s)
confirm policy_hash decision_hash (some a) s s' =
    if not (is_pending a.state)
    then (ok tt, s)
    else if not (a.policy_hash == policy_hash) || not (a.decision_hash == decision_hash)
    then (err (value_error "policy_hash/decision_hash mismatch for existing request_id"), s)
    else (ok tt, s')

abbrev pub create_row : String → String → String → Option ℕ → ℕ → Action Unit
create_row rid policy_hash decision_hash expires_at now s =
    let at = cap_expires_at expires_at now s.default_ttl_seconds s.max_ttl_seconds in
    let s' = guarded_upsert rid policy_hash decision_hash at now (lookup rid s.rows) s in
    confirm policy_hash decision_hash (lookup rid s'.rows) s s'

-- `create_pending`, the clock reading `now`
unfoldable pub create_pending : String → String → String → Option ℕ → ℕ → Action Unit
unfolding validate_nonempty_str
create_pending rid policy_hash decision_hash expires_at now =
    validate_ids rid policy_hash decision_hash
    >> create_row rid policy_hash decision_hash expires_at now

-- The `UPDATE approvals … WHERE request_id = ?` of `resolve`: no test of the old state.
abbrev pub overwrite : String → State → Option String → ℕ → Option Approval → Action Unit
overwrite rid state approver_id at none s = (ok tt, s)
overwrite rid state approver_id at (some a) s = (
  ok tt,
  record s {
    rows =
        insert rid (record a { state = state; approver_id = approver_id; resolved_at = some at })
          s.rows;
  },
)

-- `resolve`, the clock reading `now`
unfoldable pub resolve : String → String → Option String → Option ℕ → ℕ → Action Unit
unfolding validate_nonempty_str validate_state
resolve rid state approver_id resolved_at now = do
  lift (validate_nonempty_str "request_id" rid)
  new_state ← lift (validate_state state)
  λ s. overwrite rid new_state approver_id (at_or_now resolved_at now) (lookup rid s.rows) s
