-- ===== src/Approvals/Store/Sweeping.antt =====
-- approvals_store.py: the sweep over the rows that are past their time, described without its tests.
use sudo_agent.Base.{
  ℕ, ◌+◌, ◌<◌, String, ◌≡◌, refl, true, false, Option, none, some, [], ◌∷◌, arith, Bool-cases, inl,
  inr,
}
use sudo_agent.Base.Dict.{Dict}
use sudo_agent.Approvals.Common.{
  State, pending, approved, denied, expired, failed, is_pending, Result, ok, err,
}
use sudo_agent.Approvals.Store.{
  Approval, Store, is_past, is_stale, expire, expire_rows, rowcount, expire_expired,
}
use sudo_agent.Approvals.Store.Rows.{rowcount-eq, stale_count-expire_rows, expire_rows_of_current}

-- Pending, with an expiration that lies before `now`
abbrev pub IsDue : ℕ → Approval → Type 0
IsDue now a = (a.state ≡ pending) × ((t : ℕ) × (a.expires_at ≡ some t) × (t < now))

-- The second is the first after it has expired at `now`.
pub record IsExpiredTo (now : ℕ) (a b : Approval) : Type 0 where
  pub state : b.state ≡ expired
  pub resolved_at : b.resolved_at ≡ some now
  pub policy_hash : b.policy_hash ≡ a.policy_hash
  pub decision_hash : b.decision_hash ≡ a.decision_hash
  pub approver_id : b.approver_id ≡ a.approver_id
  pub expires_at : b.expires_at ≡ a.expires_at
  pub created_at : b.created_at ≡ a.created_at

-- The rows before and after a sweep that expires so many of them
pub data Sweeps (now : ℕ) : Dict Approval → Dict Approval → ℕ → Type 0 where
  done : Sweeps now [] [] 0
  expires :
      {rows rows' : Dict Approval} {n : ℕ} (rid : String) (a b : Approval)
      → IsDue now a
      → IsExpiredTo now a b
      → Sweeps now rows rows' n
      → Sweeps now ((rid, a) ∷ rows) ((rid, b) ∷ rows') (1 + n)
  stays :
      {rows rows' : Dict Approval} {n : ℕ} (rid : String) (a : Approval)
      → ¬ IsDue now a
      → Sweeps now rows rows' n
      → Sweeps now ((rid, a) ∷ rows) ((rid, a) ∷ rows') n

module _ (now : ℕ) where
  past-lt : (o : Option ℕ) → is_past o now ≡ true → (t : ℕ) × (o ≡ some t) × (t < now)
  past-lt none h = absurd (cc h)
  past-lt (some t) h = (t, refl, ground arith)

  stale-IsDue : (a : Approval) → is_stale now a ≡ true → IsDue now a
  stale-IsDue a h = (pending_of a.state (ground arith), past-lt a.expires_at (ground arith))
    where
      pending_of : (st : State) → is_pending st ≡ true → st ≡ pending
      pending_of pending g = refl
      pending_of approved g = absurd (cc g)
      pending_of denied g = absurd (cc g)
      pending_of expired g = absurd (cc g)
      pending_of failed g = absurd (cc g)

  not_stale-IsDue : (a : Approval) → is_stale now a ≡ false → ¬ IsDue now a
  not_stale-IsDue a h (st, (t, at, lt)) = ground (arith, rw (st, at) at h)

  expire-IsExpiredTo : (a : Approval) → IsExpiredTo now a (expire now a)
  expire-IsExpiredTo a = record {
    state = refl;
    resolved_at = refl;
    policy_hash = refl;
    decision_hash = refl;
    approver_id = refl;
    expires_at = refl;
    created_at = refl;
  }

  expire_rows-Sweeps :
      (rows : Dict Approval) → Sweeps now rows (expire_rows now rows) (rowcount now rows)
  unfolding expire_rows rowcount
  expire_rows-Sweeps [] = done
  expire_rows-Sweeps ((rid, a) ∷ rows) = elim (Bool-cases (is_stale now a)) [
    | inl h ↦ rw h (
        expires rid a (expire now a) (stale-IsDue a h) (expire-IsExpiredTo a)
          (expire_rows-Sweeps rows))
    | inr h ↦ rw h (stays rid a (not_stale-IsDue a h) (expire_rows-Sweeps rows))
  ]

  -- What a sweep owes its caller: the number it returns is that of the rows that expire, and with them
  -- gone a sweep at the same instant finds none and changes nothing.
  abbrev pub SweepSpec : Store → Result ℕ × Store → Type 0
  SweepSpec s (ok n, s') =
      Sweeps now s.rows s'.rows n
      × (s'.default_ttl_seconds ≡ s.default_ttl_seconds)
      × (s'.max_ttl_seconds ≡ s.max_ttl_seconds)
      × (expire_expired now s' ≡ (ok 0, s'))
  SweepSpec s (err e, s') = ⊥

  -- A sweep does not fail. The rows that are pending with an expiration before `now`, and only they,
  -- become expired, resolved at `now` and otherwise as they were; the others and the limits stay as
  -- they are. It returns how many rows expired, and a second sweep at the same instant returns 0 and
  -- changes nothing.
  pub expire_expired-SweepSpec : (s : Store) → SweepSpec s (expire_expired now s)
  unfolding expire_expired
  expire_expired-SweepSpec s = (expire_rows-Sweeps s.rows, refl, refl, again)
    where
      current : rowcount now (expire_rows now s.rows) ≡ 0
      current = rw rowcount-eq (stale_count-expire_rows now s.rows)

      again : expire_expired now (expire_expired now s).1 ≡ (ok 0, (expire_expired now s).1)
      again =
          rw
            (
              current,
              expire_rows_of_current now (expire_rows now s.rows)
                  (stale_count-expire_rows now s.rows),
            )
            refl
