-- ===== src/Approvals/AsyncStore/Comparison.antt =====
-- The async store against the sync one: alike on pending rows, and not on the others.
use sudo_agent.Base.{
  ℕ, String, ◌≡◌, refl, true, false, Option, none, some, arith, eq_iff, ◌==◌, Bool-cases, inl, inr,
}
use sudo_agent.Base.Dict.{lookup}
use sudo_agent.Base.Text.{is_blank}
use sudo_agent.Approvals.Common.{
  State, Error, ok, err, is_pending, state_name, validate_nonempty_str, validate_state,
}
use sudo_agent.Approvals.Store
use sudo_agent.Approvals.Store.{
  Approval, Store as Table, at_or_now, create_on, validate_ids, expire_expired,
}
use sudo_agent.Approvals.Store.Rows.{stale_count, expire_rows_of_current}
use sudo_agent.Approvals.Store.Outcomes.{lookup-insert_self, Result-cases}
use sudo_agent.Approvals.AsyncStore.{create_pending, guarded_upsert, confirm, resolve}

-- On a row that is pending both stores resolve alike.
pub resolve-eq_of_pending :
    (rid state : String) (approver : Option String) (at : Option ℕ) (now : ℕ) (s : Table)
    (a : Approval)
    → lookup rid s.rows ≡ some a
    → is_pending a.state ≡ true
    → resolve rid state approver at now s ≡ Store.resolve rid state approver at now s
unfolding resolve Store.resolve
resolve-eq_of_pending rid state approver at now s a e p =
    elim (Result-cases (validate_nonempty_str "request_id" rid)) [
      | inr (x, h) ↦ rw h
      | inl (u, h) ↦ elim (Result-cases (validate_state state)) [
        | inr (x, g) ↦ rw (h, g)
        | inl (st, g) ↦ rw (h, g, e, p)
      ]
    ]

-- A row that has been resolved otherwise: the sync store refuses the call and keeps the row, and the
-- async store overwrites it with the new state and reports success.
pub resolve_of_final :
    (rid state : String) (approver : Option String) (at : Option ℕ) (now : ℕ) (s : Table)
    (a : Approval) (st : State)
    → validate_nonempty_str "request_id" rid ≡ ok tt
    → validate_state state ≡ ok st
    → lookup rid s.rows ≡ some a
    → is_pending a.state ≡ false
    → (state_name a.state == state_name st) ≡ false
    → ((e : Error) × (Store.resolve rid state approver at now s ≡ (err e, s)))
      × ((resolve rid state approver at now s).0 ≡ ok tt)
      × (lookup rid (resolve rid state approver at now s).1.rows
          ≡ some (record a {
            state = st;
            approver_id = approver;
            resolved_at = some (at_or_now at now);
          }))
unfolding resolve Store.resolve
resolve_of_final rid state approver at now s a st h g e final other =
    rw (h, g, e, final, other) ((_, refl), refl, lookup-insert_self rid _ s)

confirmed :
    (rid ph dh : String) (at now : ℕ) (s : Table) (o : Option Approval)
    → lookup rid s.rows ≡ o
    → (let s' = guarded_upsert rid ph dh at now o s in confirm ph dh (lookup rid s'.rows) s s')
      ≡ create_on rid ph dh at now o s
confirmed rid ph dh at now s none e =
    rw lookup-insert_self (ground (arith, eq_iff ph ph, eq_iff dh dh))
confirmed rid ph dh at now s (some a) e = elim (Bool-cases (is_pending a.state)) [
  | inr final ↦ rw (final, e, final)
  | inl open_ ↦ elim (Bool-cases (a.policy_hash == ph)) [
    | inr e₁ ↦ rw (open_, e₁, e, open_, e₁)
    | inl e₁ ↦ elim (Bool-cases (a.decision_hash == dh)) [
      | inr e₂ ↦ rw (open_, e₁, e₂, e, open_, e₁, e₂)
      | inl e₂ ↦ rw (open_, e₁, e₂, lookup-insert_self) (ground (arith, eq_iff ph ph, eq_iff dh dh))
    ]
  ]
]

-- Where no row is pending past its time both stores create a pending approval alike, with the same
-- result and the same table.
pub create_pending-eq :
    (rid ph dh : String) (at : Option ℕ) (now : ℕ) (s : Table)
    → stale_count now s.rows ≡ 0
    → create_pending rid ph dh at now s ≡ Store.create_pending rid ph dh at now s
unfolding create_pending Store.create_pending
create_pending-eq rid ph dh at now s current =
    elim (Result-cases (validate_nonempty_str "request_id" rid)) [
      | inr (x, h) ↦ rw h
      | inl (u, h) ↦ elim (Result-cases (validate_nonempty_str "policy_hash" ph)) [
        | inr (x, g) ↦ rw (h, g)
        | inl (v, g) ↦ elim (Bool-cases (is_blank dh)) [
          | inl f ↦ rw (h, g, f)
          | inr f ↦
              rw (h, g, f, expire_rows_of_current now s.rows current)
                (confirmed rid ph dh _ now s (lookup rid s.rows) refl)
        ]
      ]
    ]
