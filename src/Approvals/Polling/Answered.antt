-- ===== src/Approvals/Polling/Answered.antt =====
-- The polling approver answers in time, and its answer is what the store holds.
use sudo_agent.Base.{
  ℕ, zero, suc, ◌+◌, ◌≤◌, ◌<◌, String, ◌≡◌, refl, ◌∙◌, true, false, Option, none, some, arith, ltb,
  Bool-cases, inl, inr,
}
use sudo_agent.Base.Text.{is_blank}
use sudo_agent.Base.Dict.{lookup}
use sudo_agent.Approvals.Common.{
  State, pending, approved, denied, expired, failed, is_pending, validate_nonempty_str,
}
use sudo_agent.Approvals.Store.{Approval, Store, is_stale, expire, fetch, fetch_on}
use sudo_agent.Approvals.Store.Lifecycle.{Evolves, run, run-Evolves}
use sudo_agent.Approvals.Store.Outcomes.{lookup-insert_self}
use sudo_agent.Approvals.Polling.{
  Outcome, Turn, granted, declined, timed_out, raised, on_state, on_record, poll, approve,
}

-- The row of `rid` is still bound to what `a` was bound to.
abbrev pub Holds : String → Approval → Store → Approval → Type 0
Holds rid a s b =
    (lookup rid s.rows ≡ some b)
    × (b.policy_hash ≡ a.policy_hash)
    × (b.decision_hash ≡ a.decision_hash)

-- What an answer says of the row that the store then holds, where the row was once `a`.
abbrev pub Answers : String → Approval → Option (Outcome × Store) → Type 0
Answers rid a none = ⊥
Answers rid a (some (granted g, s)) =
    (g.request_id ≡ rid)
    × (g.policy_hash ≡ a.policy_hash)
    × (g.decision_hash ≡ a.decision_hash)
    × ((b : Approval) × Holds rid a s b × (b.state ≡ approved) × (g.approver_id ≡ b.approver_id))
Answers rid a (some (declined, s)) =
    (b : Approval) × Holds rid a s b × (is_pending b.state ≡ false) × ¬ (b.state ≡ approved)
Answers rid a (some (timed_out, s)) = (b : Approval) × Holds rid a s b
Answers rid a (some (raised e, s)) = ⊥

fetch-eq :
    (rid : String) (now now' : ℕ) (s : Store)
    → is_blank rid ≡ false
    → fetch rid now now' s ≡ fetch_on rid now now' (lookup rid s.rows) s
unfolding fetch validate_nonempty_str
fetch-eq rid now now' s h = rw h refl

kept_of :
    (rid : String) (a b : Approval) (s : Store) (o : Option Approval)
    → (b.policy_hash ≡ a.policy_hash) × (b.decision_hash ≡ a.decision_hash)
    → Evolves (some b) o
    → lookup rid s.rows ≡ o
    → (c : Approval) × Holds rid a s c
kept_of rid a b s none h ev e = absurd ev
kept_of rid a b s (some c) (p, d) (p', d', _, _) e = (c, (e, p' ∙ p, d' ∙ d))

run-Holds :
    (rid : String) (a b : Approval) (s : Store) (t : Turn)
    → Holds rid a s b
    → (c : Approval) × Holds rid a (run t.others s) c
run-Holds rid a b s t (h, p, d) =
    let ev = run-Evolves t.others rid s in
    kept_of rid a b (run t.others s) (lookup rid (run t.others s).rows) (p, d) (rw (← h) ev) refl

module _ (rid : String) (a : Approval) (again : Store → Option (Outcome × Store)) where
  Goes : Type 0
  Goes = (s : Store) (b : Approval) → Holds rid a s b → Answers rid a (again s)

  on_state-Answers :
      Goes
      → (st : State) (b : Approval) (s : Store) → b.state ≡ st
      → Holds rid a s b
      → Answers rid a (on_state st rid b s again)
  unfolding Goes
  on_state-Answers go approved b s e (h, p, d) = (refl, p, d, (b, (h, p, d), e, refl))
  on_state-Answers go denied b s e h = (b, h, ground arith, ground arith)
  on_state-Answers go expired b s e h = (b, h, ground arith, ground arith)
  on_state-Answers go failed b s e h = (b, h, ground arith, ground arith)
  on_state-Answers go pending b s e h = go s b h

  on_record-Answers :
      Goes
      → (b : Approval) (s : Store) (now now' : ℕ) → Holds rid a s b
      → Answers rid a (on_record rid (fetch_on rid now now' (some b) s) again)
  unfolding Goes
  on_record-Answers go b s now now' (h, p, d) = elim (Bool-cases (is_stale now b)) [
    | inl stale ↦ rw stale (
      expire now' b,
      (lookup-insert_self rid (expire now' b) s, p, d),
      ground arith,
      ground arith,
    )
    | inr g ↦ rw g (on_state-Answers go b.state b s refl (h, p, d))
  ]

module _ (rid : String) (a : Approval) (deadline : ℕ) (turn : ℕ → Turn) where
  turn-Answers :
      is_blank rid ≡ false
      → (fuel i : ℕ) (s : Store) (b : Approval)
      → (ltb (turn i).clock deadline ≡ true → Goes rid a (poll rid deadline turn fuel (suc i)))
      → Holds rid a s b
      → Answers rid a (poll rid deadline turn (suc fuel) i s)
  unfolding poll
  turn-Answers named fuel i s b go h =
      let (c, k) = run-Holds rid a b s (turn i) h in
      elim (Bool-cases (ltb (turn i).clock deadline)) [
        | inr late ↦ rw late (c, k)
        | inl early ↦
            rw (early, fetch-eq rid _ _ (run (turn i).others s) named, k.0)
              (on_record-Answers rid a _ (go early) c (run (turn i).others s) _ _ k)
      ]

  poll-Answers :
      is_blank rid ≡ false
      → ((i : ℕ) → (turn i).clock < (turn (suc i)).clock)
      → (fuel i : ℕ) (s : Store) (b : Approval) → deadline ≤ (turn i).clock + fuel
      → Holds rid a s b
      → Answers rid a (poll rid deadline turn (suc fuel) i s)
  unfolding Goes
  poll-Answers named later zero i s b enough h =
      turn-Answers named zero i s b (λ early. absurd (ground arith)) h
  poll-Answers named later (suc fuel) i s b enough h =
      let next = later i in
      turn-Answers named (suc fuel) i s b
        (λ early s' c k. poll-Answers named later fuel (suc i) s' c (omega arith) k) h

-- Where the clock goes on by at least one from turn to turn, the request id is not blank and its
-- row is in the store, whatever other processes call meanwhile: the polling approver answers within
-- timeout + 1 turns. A grant names the request and the policy and decision that the row is for, and
-- its row is approved by that approver; where it declines, the row is neither pending nor approved.
pub approve-Answers :
    (rid : String) (a : Approval) (start timeout : ℕ) (turn : ℕ → Turn) (s : Store)
    → is_blank rid ≡ false
    → start ≤ (turn 0).clock
    → ((i : ℕ) → (turn i).clock < (turn (suc i)).clock)
    → lookup rid s.rows ≡ some a
    → Answers rid a (approve rid start timeout turn s)
unfolding approve
approve-Answers rid a start timeout turn s named begun later h =
    poll-Answers rid a (start + timeout) turn named later timeout 0 s a (omega arith)
      (h, refl, refl)
