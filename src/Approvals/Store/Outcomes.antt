-- ===== src/Approvals/Store/Outcomes.antt =====
-- approvals_store.py: what `resolve` and `fetch` return, and what they do to the table.
use sudo_agent.Base.{
  ℕ, ◌+◌, ◌≤◌, ◌<◌, String, ◌≡◌, ◌⊎◌, refl, ◌∙◌, false, Option, none, some, arith, eq_iff,
  Bool-cases, inl, inr, if◌then◌else◌,
}
use sudo_agent.Base.Dict.{lookup, insert, lookup-insert}
use sudo_agent.Approvals.Common.{
  State, Result, Error, ok, err, is_pending, same_state, state_name, validate_nonempty_str,
  validate_state, cap_expires_at, seconds,
}
use sudo_agent.Approvals.Store.{
  Approval, Store, is_stale, expire, resolve_on, resolve, fetch_on, fetch, at_or_now,
}

pub lookup-insert_self :
    (k : String) (a : Approval) (s : Store) → lookup k (insert k a s.rows) ≡ some a
lookup-insert_self k a s = ground (arith, lookup-insert k k a s.rows, eq_iff k k)

-- What `resolve` owes its caller: in return for no error the row is in the state that was asked for,
-- and an error leaves the store as it was.
abbrev pub ResolveSpec : String → String → Store → Result Unit × Store → Type 0
ResolveSpec rid state s (ok _, s') =
    (a : Approval) × (lookup rid s'.rows ≡ some a) × (state_name a.state ≡ state)
ResolveSpec rid state s (err e, s') = s' ≡ s

pub validate_state-name :
    (text : String) (st : State) → validate_state text ≡ ok st → state_name st ≡ text
unfolding validate_state
validate_state-name text st h = ground (
  arith,
  eq_iff text "pending",
  eq_iff text "approved",
  eq_iff text "denied",
  eq_iff text "expired",
  eq_iff text "failed",
)

resolve_on-Spec :
    (rid : String) (st : State) (state : String) (approver : Option String) (at : ℕ) (s : Store)
    → state_name st ≡ state
    → (o : Option Approval) → lookup rid s.rows ≡ o
    → ResolveSpec rid state s (resolve_on rid st approver at o s)
resolve_on-Spec rid st state approver at s named none e = refl
resolve_on-Spec rid st state approver at s named (some a) e =
    elim (Bool-cases (is_pending a.state)) [
      | inl open_ ↦ rw open_ (_, lookup-insert_self rid _ s, named)
      | inr final ↦ elim (Bool-cases (same_state a.state st)) [
        | inl g ↦ rw (final, g) (a, e, (eq_iff (state_name a.state) (state_name st)).0 g ∙ named)
        | inr g ↦ rw (final, g) refl
      ]
    ]

pub Result-cases :
    {A : Type 0} (r : Result A) → ((a : A) × (r ≡ ok a)) ⊎ ((e : Error) × (r ≡ err e))
Result-cases (ok a) = inl (a, refl)
Result-cases (err e) = inr (e, refl)

-- `resolve`, whatever it is given: without an error the row is in the state that was asked for, and
-- with one the store is as it was.
pub resolve-Spec :
    (rid state : String) (approver : Option String) (at : Option ℕ) (now : ℕ) (s : Store)
    → ResolveSpec rid state s (resolve rid state approver at now s)
unfolding resolve
resolve-Spec rid state approver at now s =
    elim (Result-cases (validate_nonempty_str "request_id" rid)) [
      | inr (e, h) ↦ rw h refl
      | inl (u, h) ↦ elim (Result-cases (validate_state state)) [
        | inr (e, g) ↦ rw (h, g) refl
        | inl (st, g) ↦
            rw (h, g)
              (resolve_on-Spec rid st state approver (at_or_now at now) s
                (validate_state-name state st g) (lookup rid s.rows) refl)
      ]
    ]

-- What `fetch` owes its caller: a missing row is reported as missing; a record that is returned is
-- the one that the table then holds, is not pending past its time, and differs from what the table
-- held only where it was.
abbrev pub FetchSpec : String → ℕ → ℕ → Store → Result (Option Approval) × Store → Type 0
FetchSpec rid now now' s (ok none, s') = (lookup rid s.rows ≡ none) × (s' ≡ s)
FetchSpec rid now now' s (ok (some a), s') =
    (lookup rid s'.rows ≡ some a)
    × (is_stale now a ≡ false)
    × ((b : Approval) × (lookup rid s.rows ≡ some b)
        × (a ≡ (if is_stale now b then expire now' b else b)))
FetchSpec rid now now' s (err e, s') = s' ≡ s

fetch_on-Spec :
    (rid : String) (now now' : ℕ) (s : Store) (o : Option Approval)
    → lookup rid s.rows ≡ o
    → FetchSpec rid now now' s (fetch_on rid now now' o s)
fetch_on-Spec rid now now' s none e = (e, refl)
fetch_on-Spec rid now now' s (some a) e = elim (Bool-cases (is_stale now a)) [
  | inl stale ↦ rw stale (lookup-insert_self rid _ s, refl, (a, e, rw stale))
  | inr g ↦ rw g (e, g, (a, e, rw g))
]

-- `fetch` returns a record that is current, and the table holds the same one.
pub fetch-Spec :
    (rid : String) (now now' : ℕ) (s : Store) → FetchSpec rid now now' s (fetch rid now now' s)
unfolding fetch
fetch-Spec rid now now' s = elim (Result-cases (validate_nonempty_str "request_id" rid)) [
  | inr (e, h) ↦ rw h refl
  | inl (u, h) ↦ rw h (fetch_on-Spec rid now now' s (lookup rid s.rows) refl)
]

-- A given expiration is cut to the maximum TTL; where none is given the default TTL is used as it is,
-- also where it is longer than the maximum.
pub cap_expires_at_bounds :
    (now default_ttl max_ttl : ℕ)
    → ((t : ℕ)
        → (cap_expires_at (some t) now default_ttl max_ttl ≤ now + seconds max_ttl)
          × (cap_expires_at (some t) now default_ttl max_ttl ≤ t))
      × (max_ttl < default_ttl
          → now + seconds max_ttl < cap_expires_at none now default_ttl max_ttl)
unfolding cap_expires_at
cap_expires_at_bounds now d m = (λ t. ground arith, λ h. ground arith)
