-- ===== src/Engine/Approval/Polled.antt =====
-- What the engine makes of the mapping that the polling approver returns.
use sudo_agent.Base.{
  ℕ, suc, ◌≤◌, ◌<◌, String, ◌≡◌, refl, true, false, ◌&&◌, ◌==◌, Option, none, some, [], ◌∷◌, arith,
  eq_iff,
}
use sudo_agent.Base.Text.{is_blank}
use sudo_agent.Base.Dict.{lookup}
use sudo_agent.Value.{Value, null, bool, str, dict, fields}
use sudo_agent.Engine.Services.{Response, mapping}
use sudo_agent.Engine.Approval.{expected_binding, parse_approval_response}
use sudo_agent.Approvals.Store.{Approval, Store}
use sudo_agent.Approvals.Polling.{
  Grant, Outcome, Turn, granted, declined, timed_out, raised, approve,
}
use sudo_agent.Approvals.Polling.Answered.{Answers, approve-Answers}

abbrev pub text_or_none : Option String → Value
text_or_none none = null
text_or_none (some s) = str s

-- The mapping that `approve` returns.
abbrev pub grant_mapping : Grant → Response
grant_mapping g = mapping (
    fields (
      ("approved", bool true)
      ∷ ("approver_id", text_or_none g.approver_id)
      ∷ ("binding", dict (expected_binding g.request_id g.policy_hash g.decision_hash))
      ∷ []))

module _ (str_of : Value → String) where
  -- The grant is an approval of this request under this policy and decision, and of no other.
  abbrev pub CountsFor : Grant → String → String → String → Type 0
  CountsFor g rid ph dh =
      (r p d : String)
      → let a = parse_approval_response str_of (grant_mapping g) (expected_binding r p d) in
        ((r ≡ rid) × (p ≡ ph) × (d ≡ dh) → a.approved ≡ true)
        × (a.approved ≡ true → (r ≡ rid) × (p ≡ ph) × (d ≡ dh))

  -- A grant counts for the row's request and hashes only; the other answers are as they are.
  abbrev pub Counts : String → Approval → Option (Outcome × Store) → Type 0
  Counts rid a none = ⊥
  Counts rid a (some (granted g, s)) = CountsFor g rid a.policy_hash a.decision_hash
  Counts rid a (some (declined, s)) = Unit
  Counts rid a (some (timed_out, s)) = Unit
  Counts rid a (some (raised e, s)) = ⊥

  parsed :
      (g : Grant) (r p d : String)
      → (parse_approval_response str_of (grant_mapping g) (expected_binding r p d)).approved
        ≡ (g.request_id == r && (g.policy_hash == p && (g.decision_hash == d && true)))
  unfolding parse_approval_response
  parsed g r p d = refl

  grant-CountsFor : (g : Grant) → CountsFor g g.request_id g.policy_hash g.decision_hash
  grant-CountsFor g r p d = rw (parsed g r p d) (
    ground (arith, eq_iff g.request_id r, eq_iff g.policy_hash p, eq_iff g.decision_hash d),
    ground (arith, eq_iff g.request_id r, eq_iff g.policy_hash p, eq_iff g.decision_hash d),
  )

  Answers-Counts :
      (rid : String) (a : Approval) (o : Option (Outcome × Store))
      → Answers rid a o
      → Counts rid a o
  Answers-Counts rid a none h = absurd h
  Answers-Counts rid a (some (granted g, s)) (e₁, e₂, e₃, _) =
      rw (← e₁, ← e₂, ← e₃) (grant-CountsFor g)
  Answers-Counts rid a (some (declined, s)) h = tt
  Answers-Counts rid a (some (timed_out, s)) h = tt
  Answers-Counts rid a (some (raised e, s)) h = absurd h

-- Where the clock goes on by at least one from turn to turn, the request id is not blank and its
-- row is in the store, whatever other processes call meanwhile: what the polling approver grants
-- counts with the engine as an approval of this request under the policy hash and decision hash of
-- the row, and of no other.
pub approve-Counts :
    (str_of : Value → String) (rid : String) (a : Approval) (start timeout : ℕ) (turn : ℕ → Turn)
    (s : Store)
    → is_blank rid ≡ false
    → start ≤ (turn 0).clock
    → ((i : ℕ) → (turn i).clock < (turn (suc i)).clock)
    → lookup rid s.rows ≡ some a
    → Counts str_of rid a (approve rid start timeout turn s)
approve-Counts str_of rid a start timeout turn s named begun later h =
    Answers-Counts str_of rid a _ (approve-Answers rid a start timeout turn s named begun later h)
