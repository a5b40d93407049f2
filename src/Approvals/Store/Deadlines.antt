-- ===== src/Approvals/Store/Deadlines.antt =====
-- No approval stays pending: every pending row has an expiration, at most the longest allowed time
-- after the latest call, and once that has passed a sweep leaves nothing pending.
use sudo_agent.Base.{
  ℕ, ◌+◌, ◌≤◌, ◌<◌, String, ◌≡◌, refl, true, false, Option, none, some, List, [], ◌∷◌, arith, ◌==◌,
  Bool-cases, inl, inr,
}
use sudo_agent.Base.Dict.{lookup, insert, lookup-insert}
use sudo_agent.Approvals.Common.{
  State, ok, is_pending, same_state, seconds, cap_expires_at, validate_nonempty_str, validate_state,
}
use sudo_agent.Approvals.Store.{
  Approval, Store, is_stale, is_past, expire_expired, create_on, create_row, create_pending,
  validate_ids, resolve_on, resolve, fetch_on, fetch, at_or_now,
}
use sudo_agent.Approvals.Store.Rows.{expire_if_stale, lookup-expire_rows}
use sudo_agent.Approvals.Store.Rules.{Preserves, Preserves-lift_bind, Preserves-bind}
use sudo_agent.Approvals.Store.Lifecycle.{Call, creates, resolves, fetches, expires, run}

abbrev pub Before : ℕ → Option ℕ → Type 0
Before limit none = ⊥
Before limit (some t) = t ≤ limit

-- A pending row expires by `limit`.
abbrev pub Deadline : ℕ → Option Approval → Type 0
Deadline limit none = Unit
Deadline limit (some a) = is_pending a.state ≡ true → Before limit a.expires_at

pub record IsBounded (longest limit : ℕ) (s : Store) : Type 0 where
  pub default_le : s.default_ttl_seconds ≤ longest
  pub max_eq : s.max_ttl_seconds ≡ longest
  pub rows : (k : String) → Deadline limit (lookup k s.rows)

IsBounded-later :
    (longest l l' : ℕ) (s : Store) → l ≤ l' → IsBounded longest l s → IsBounded longest l' s
IsBounded-later longest l l' s le h = record {
  default_le = h.default_le;
  max_eq = h.max_eq;
  rows = λ k. later (lookup k s.rows) (h.rows k);
}
  where
    before : (o : Option ℕ) → Before l o → Before l' o
    before none b = b
    before (some t) b = omega arith

    later : (o : Option Approval) → Deadline l o → Deadline l' o
    later none d = tt
    later (some a) d = λ p. before a.expires_at (d p)

module _ (longest limit : ℕ) where
  abbrev P : Store → Type 0
  P = IsBounded longest limit

  insert-IsBounded :
      (rid : String) (b : Approval)
      → Deadline limit (some b)
      → Preserves P (λ s. (ok tt, record s { rows = insert rid b s.rows }))
  insert-IsBounded rid b d s h = record {
    default_le = h.default_le;
    max_eq = h.max_eq;
    rows = λ k.
        rw lookup-insert
          (elim (Bool-cases (rid == k)) [ inl e ↦ rw e d | inr e ↦ rw e (h.rows k) ]);
  }

  expire_expired-IsBounded : (now : ℕ) → Preserves P (expire_expired now)
  unfolding expire_expired
  expire_expired-IsBounded now s h = record {
    default_le = h.default_le;
    max_eq = h.max_eq;
    rows = λ k. rw lookup-expire_rows (expired_row (lookup k s.rows) (h.rows k));
  }
    where
      expired_row :
          (o : Option Approval) → Deadline limit o → Deadline limit (expire_if_stale now o)
      expired_row none d = tt
      expired_row (some a) d = elim (Bool-cases (is_stale now a)) [
        | inl e ↦ rw e (λ p. cc)
        | inr e ↦ rw e d
      ]

  cap-le :
      (o : Option ℕ) (now : ℕ) (s : Store)
      → P s
      → now + seconds longest ≤ limit
      → cap_expires_at o now s.default_ttl_seconds s.max_ttl_seconds ≤ limit
  unfolding cap_expires_at
  cap-le none now s h le = grind (arith, h.default_le)
  cap-le (some t) now s h le = ground (arith, h.max_eq)

  create_row-IsBounded :
      (rid ph dh : String) (o : Option ℕ) (now : ℕ)
      → now + seconds longest ≤ limit
      → Preserves P (create_row rid ph dh o now)
  create_row-IsBounded rid ph dh o now le s h = on (lookup rid s.rows)
    where
      at : ℕ
      at = cap_expires_at o now s.default_ttl_seconds s.max_ttl_seconds

      on : (r : Option Approval) → P (create_on rid ph dh at now r s).1
      on none = insert-IsBounded rid _ (λ p. cap-le o now s h le) s h
      on (some a) = elim (Bool-cases (is_pending a.state)) [
        | inr final ↦ rw final h
        | inl open_ ↦ elim (Bool-cases (a.policy_hash == ph)) [
          | inr e₁ ↦ rw (open_, e₁) h
          | inl e₁ ↦ elim (Bool-cases (a.decision_hash == dh)) [
            | inr e₂ ↦ rw (open_, e₁, e₂) h
            | inl e₂ ↦ rw (open_, e₁, e₂) (insert-IsBounded rid _ (λ p. cap-le o now s h le) s h)
          ]
        ]
      ]

  resolve_on-IsBounded :
      (rid : String) (st : State) (approver : Option String) (at : ℕ)
      → Preserves P (λ s. resolve_on rid st approver at (lookup rid s.rows) s)
  resolve_on-IsBounded rid st approver at s h = on (lookup rid s.rows) (h.rows rid)
    where
      on : (r : Option Approval) → Deadline limit r → P (resolve_on rid st approver at r s).1
      on none d = h
      on (some a) d = elim (Bool-cases (is_pending a.state)) [
        | inl open_ ↦ rw open_ (insert-IsBounded rid _ (λ p. d open_) s h)
        | inr final ↦ elim (Bool-cases (same_state a.state st)) [
          | inl g ↦ rw (final, g) h
          | inr g ↦ rw (final, g) h
        ]
      ]

  fetch_on-IsBounded :
      (rid : String) (now now' : ℕ) → Preserves P (λ s. fetch_on rid now now' (lookup rid s.rows) s)
  fetch_on-IsBounded rid now now' s h = on (lookup rid s.rows)
    where
      on : (r : Option Approval) → P (fetch_on rid now now' r s).1
      on none = h
      on (some a) = elim (Bool-cases (is_stale now a)) [
        | inl stale ↦ rw stale (insert-IsBounded rid _ (λ p. cc) s h)
        | inr g ↦ rw g h
      ]

  create_pending-IsBounded :
      (rid ph dh : String) (o : Option ℕ) (now : ℕ)
      → now + seconds longest ≤ limit
      → Preserves P (create_pending rid ph dh o now)
  unfolding create_pending
  create_pending-IsBounded rid ph dh o now le =
      Preserves-bind P (validate_ids rid ph dh) _ validated λ _.
        Preserves-bind P (expire_expired now) (λ _. create_row rid ph dh o now)
          (expire_expired-IsBounded now) λ _. create_row-IsBounded rid ph dh o now le
    where
      validated : Preserves P (validate_ids rid ph dh)
      validated = Preserves-lift_bind P {B = Unit} (validate_nonempty_str "request_id" rid) _ λ _.
          Preserves-lift_bind P {B = Unit} (validate_nonempty_str "policy_hash" ph) _ λ _ s h. h

  resolve-IsBounded :
      (rid state : String) (approver : Option String) (at : Option ℕ) (now : ℕ)
      → Preserves P (resolve rid state approver at now)
  unfolding resolve
  resolve-IsBounded rid state approver at now =
      Preserves-lift_bind P (validate_nonempty_str "request_id" rid) _ λ _.
        Preserves-lift_bind P (validate_state state) _
          λ st. resolve_on-IsBounded rid st approver (at_or_now at now)

  fetch-IsBounded : (rid : String) (now now' : ℕ) → Preserves P (fetch rid now now')
  unfolding fetch
  fetch-IsBounded rid now now' =
      Preserves-lift_bind P (validate_nonempty_str "request_id" rid) _
        λ _. fetch_on-IsBounded rid now now'

-- The time of a call's first reading of the clock.
abbrev pub time : Call → ℕ
time (creates rid ph dh at now) = now
time (resolves rid state approver_id at now) = now
time (fetches rid now now') = now
time (expires now) = now

-- Every call comes at `t` or before.
abbrev pub IsBy : ℕ → List Call → Type 0
IsBy t [] = Unit
IsBy t (c ∷ calls) = (time c ≤ t) × IsBy t calls

run-IsBounded :
    (longest t : ℕ) (calls : List Call) (s : Store)
    → IsBy t calls
    → IsBounded longest (t + seconds longest) s
    → IsBounded longest (t + seconds longest) (run calls s)
run-IsBounded longest t [] s by h = h
run-IsBounded longest t (creates rid ph dh at now ∷ calls) s (le, by) h =
    run-IsBounded longest t calls _ by
      (create_pending-IsBounded longest (t + seconds longest) rid ph dh at now (omega arith) s h)
run-IsBounded longest t (resolves rid state a at now ∷ calls) s (le, by) h =
    run-IsBounded longest t calls _ by
      (resolve-IsBounded longest (t + seconds longest) rid state a at now s h)
run-IsBounded longest t (fetches rid now now' ∷ calls) s (le, by) h =
    run-IsBounded longest t calls _ by
      (fetch-IsBounded longest (t + seconds longest) rid now now' s h)
run-IsBounded longest t (expires now ∷ calls) s (le, by) h =
    run-IsBounded longest t calls _ by
      (expire_expired-IsBounded longest (t + seconds longest) now s h)

abbrev pub IsSettled : Option Approval → Type 0
IsSettled none = Unit
IsSettled (some a) = is_pending a.state ≡ false

is_past_of_Before :
    (limit now : ℕ) (o : Option ℕ) → Before limit o → limit < now → is_past o now ≡ true
is_past_of_Before limit now none b lt = absurd b
is_past_of_Before limit now (some t) b lt = ground arith

expire_if_stale-IsSettled :
    (limit now : ℕ) (o : Option Approval)
    → Deadline limit o
    → limit < now
    → IsSettled (expire_if_stale now o)
expire_if_stale-IsSettled limit now none d lt = tt
expire_if_stale-IsSettled limit now (some a) d lt = elim (Bool-cases (is_pending a.state)) [
  | inr final ↦ ground arith
  | inl open_ ↦ ground (arith, is_past_of_Before limit now a.expires_at (d open_) lt)
]

-- From a store with no rows whose default TTL is at most its maximum: after any calls that came at
-- `t` or before, a sweep later than `t` plus the maximum TTL leaves no row pending.
pub sweep_settles :
    (t now : ℕ) (calls : List Call) (s : Store)
    → s.rows ≡ []
    → s.default_ttl_seconds ≤ s.max_ttl_seconds
    → IsBy t calls
    → t + seconds s.max_ttl_seconds < now
    → (k : String) → IsSettled (lookup k (expire_expired now (run calls s)).1.rows)
unfolding expire_expired
sweep_settles t now calls s empty le by lt k =
    let bounded =
      run-IsBounded s.max_ttl_seconds t calls s by
        (record { default_le = le; max_eq = refl; rows = λ j. rw empty tt }) in
    rw lookup-expire_rows
      (expire_if_stale-IsSettled (t + seconds s.max_ttl_seconds) now _ (bounded.rows k) lt)
