-- ===== src/Approvals/Polling.antt =====
-- notifiers/async_approvers.py, `class PollingAsyncApprover`, over the modelled approval store. What
-- other processes do to the store before each poll, while the approver sleeps, is a list of calls, and
-- the clock's readings are given with it. The notification, whose errors are only logged, is left out.
pub mod Answered
mod Examples
use sudo_agent.Base.{ℕ, zero, suc, ◌+◌, String, Option, none, some, List, ltb, if◌then◌else◌}
use sudo_agent.Approvals.Common.{
  State, pending, approved, denied, expired, failed, Error, Result, ok, err,
}
use sudo_agent.Approvals.Store.{Approval, Store, fetch}
use sudo_agent.Approvals.Store.Lifecycle.{Call, run}

-- The mapping that `approve` returns for an approved record, with its binding.
pub record Grant : Type 0 where
  pub approver_id : Option String
  pub request_id : String
  pub policy_hash : String
  pub decision_hash : String

pub data Outcome : Type 0 where
  granted : Grant → Outcome
  declined timed_out : Outcome
  raised : Error → Outcome

-- One turn of the loop: the clock at its test, what others do meanwhile, and the clock in `fetch`.
pub record Turn : Type 0 where
  pub clock : ℕ
  pub others : List Call
  pub read : ℕ
  pub write : ℕ

abbrev pub grant : String → Approval → Grant
grant rid a = record {
  approver_id = a.approver_id;
  request_id = rid;
  policy_hash = a.policy_hash;
  decision_hash = a.decision_hash;
}

-- The branches on `record.get("state")`; on a pending record the loop goes on.
abbrev pub on_state :
    State
    → String
    → Approval
    → Store
    → (Store → Option (Outcome × Store))
    → Option (Outcome × Store)
on_state approved rid a s again = some (granted (grant rid a), s)
on_state denied rid a s again = some (declined, s)
on_state expired rid a s again = some (declined, s)
on_state pending rid a s again = again s
on_state failed rid a s again = some (declined, s)

abbrev pub on_record :
    String
    → Result (Option Approval) × Store
    → (Store → Option (Outcome × Store))
    → Option (Outcome × Store)
on_record rid (err e, s) again = some (raised e, s)
on_record rid (ok none, s) again = some (declined, s)
on_record rid (ok (some a), s) again = on_state a.state rid a s again

-- The loop from its `i`-th turn on, on fuel.
unfoldable pub poll : String → ℕ → (ℕ → Turn) → ℕ → ℕ → Store → Option (Outcome × Store)
poll rid deadline turn zero i s = none
poll rid deadline turn (suc fuel) i s =
    let t = turn i in
    let s' = run t.others s in
    if ltb t.clock deadline
    then on_record rid (fetch rid t.read t.write s') (poll rid deadline turn fuel (suc i))
    else some (timed_out, s')

-- `approve`, begun when the clock read `start`; a turn takes time, so `timeout + 1` turns are enough.
unfoldable pub approve : String → ℕ → ℕ → (ℕ → Turn) → Store → Option (Outcome × Store)
unfolding poll
approve rid start timeout turn s = poll rid (start + timeout) turn (suc timeout) 0 s
