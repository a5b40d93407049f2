-- ===== src/Approvals/Polling/Examples.antt =====
-- Runs of the polling approver, and the theorems on it at a concrete store and schedule.
use sudo_agent.Base.{ℕ, zero, suc, ◌+◌, ◌*◌, ◌<◌, ◌≡◌, refl, none, some, [], ◌∷◌, arith}
use sudo_agent.Base.Text.{is_blank}
use sudo_agent.Approvals.Common.{pending, approved}
use sudo_agent.Approvals.Store.{Approval, Store, fetch, resolve}
use sudo_agent.Approvals.Store.Lifecycle.{resolves}
use sudo_agent.Approvals.Polling.{Turn, Grant, granted, timed_out, approve}
use sudo_agent.Engine.Approval.Polled.{Counts, approve-Counts}
use sudo_agent.Approvals.Polling.Answered.{Answers, approve-Answers}

abbrev waiting : Approval
waiting = record {
  policy_hash = "p";
  decision_hash = "d";
  state = pending;
  approver_id = none;
  expires_at = some 300000010;
  created_at = 10;
  resolved_at = none;
}

abbrev one_waiting : Store
one_waiting = record {
  default_ttl_seconds = 300;
  max_ttl_seconds = 3600;
  rows = ("r1", waiting) ∷ [];
}

-- A poll every two units of time; alice approves before the third.
abbrev schedule : ℕ → Turn
schedule (suc (suc zero)) = record {
  clock = 24;
  others = resolves "r1" "approved" (some "alice") none 23 ∷ [];
  read = 24;
  write = 24;
}
schedule i = record { clock = 20 + 2 * i; others = []; read = 20 + 2 * i; write = 20 + 2 * i }

schedule_later : (i : ℕ) → (schedule i).clock < (schedule (suc i)).clock
schedule_later zero = omega arith
schedule_later (suc zero) = omega arith
schedule_later (suc (suc zero)) = omega arith
schedule_later (suc (suc (suc i))) = omega arith

abbrev alice : Grant
alice = record {
  approver_id = some "alice";
  request_id = "r1";
  policy_hash = "p";
  decision_hash = "d";
}

abbrev one_granted : Store
one_granted = record one_waiting {
  rows =
      ("r1", record waiting { state = approved; approver_id = some "alice"; resolved_at = some 23 })
      ∷ [];
}

third_poll : approve "r1" 20 10 schedule one_waiting ≡ some (granted alice, one_granted)
unfolding approve fetch resolve
third_poll = refl

too_short : approve "r1" 20 4 schedule one_waiting ≡ some (timed_out, one_granted)
unfolding approve fetch resolve
too_short = refl

approve-Answers_example : Answers "r1" waiting (approve "r1" 20 10 schedule one_waiting)
unfolding is_blank
approve-Answers_example =
    approve-Answers "r1" waiting 20 10 schedule one_waiting refl (omega arith) schedule_later refl

approve-Counts_example : Counts (λ v. "") "r1" waiting (approve "r1" 20 10 schedule one_waiting)
unfolding is_blank
approve-Counts_example =
    approve-Counts (λ v. "") "r1" waiting 20 10 schedule one_waiting refl (omega arith)
      schedule_later refl
