-- ===== src/Approvals/Store/Lifecycle.antt =====
-- The life of a row: what an approval was bound to never changes, and once it is no longer pending
-- nothing changes at all.
use sudo_agent.Base.{
  ℕ, String, ◌≡◌, refl, sym, ◌∙◌, true, false, Option, none, some, List, [], ◌∷◌, arith, eq_iff,
  ◌==◌, Bool-cases, inl, inr,
}
use sudo_agent.Base.Dict.{lookup, insert, lookup-insert}
use sudo_agent.Approvals.Common.{
  State, Result, is_pending, same_state, ok, err, validate_nonempty_str, validate_state,
}
use sudo_agent.Approvals.Store.{
  Approval, Store, Action, continue, lift, ◌>>=◌, validate_ids, is_stale, expire_expired, create_on,
  create_row, create_pending, resolve_on, resolve, fetch_on, fetch,
}
use sudo_agent.Approvals.Store.Rows.{expire_if_stale, lookup-expire_rows}

-- How a row may change in one step.
abbrev pub Evolves : Option Approval → Option Approval → Type 0
Evolves none o = Unit
Evolves (some a) none = ⊥
Evolves (some a) (some b) =
    (b.policy_hash ≡ a.policy_hash)
    × (b.decision_hash ≡ a.decision_hash)
    × (b.created_at ≡ a.created_at)
    × (is_pending a.state ≡ false → b ≡ a)

pub Evolves-refl : (o : Option Approval) → Evolves o o
Evolves-refl none = tt
Evolves-refl (some a) = (refl, refl, refl, λ h. refl)

not_stale_of_final :
    (a : Approval) (now : ℕ) → is_pending a.state ≡ false → ¬ (is_stale now a ≡ true)
not_stale_of_final a now f h = ground arith

module _ (k : String) (s : Store) where
  pub expire_expired-Evolves :
      (now : ℕ) → Evolves (lookup k s.rows) (lookup k (expire_expired now s).1.rows)
  unfolding expire_expired
  expire_expired-Evolves now = rw lookup-expire_rows (evolve (lookup k s.rows))
    where
      evolve : (o : Option Approval) → Evolves o (expire_if_stale now o)
      evolve none = tt
      evolve (some a) = ground arith

  -- A write of one row, seen from any key.
  insert-Evolves :
      (rid : String) (b : Approval)
      → Evolves (lookup rid s.rows) (some b)
      → Evolves (lookup k s.rows) (lookup k (insert rid b s.rows))
  insert-Evolves rid b h = rw lookup-insert (elim (Bool-cases (rid == k)) [
    | inl e ↦ rw (e, ← (eq_iff rid k).0 e) h
    | inr e ↦ rw e (Evolves-refl (lookup k s.rows))
  ])

  create_on-Evolves :
      (rid ph dh : String) (at now : ℕ) (o : Option Approval)
      → lookup rid s.rows ≡ o
      → Evolves (lookup k s.rows) (lookup k (create_on rid ph dh at now o s).1.rows)
  create_on-Evolves rid ph dh at now none e = insert-Evolves rid _ (rw e tt)
  create_on-Evolves rid ph dh at now (some a) e = elim (Bool-cases (is_pending a.state)) [
    | inr final ↦ rw final (Evolves-refl (lookup k s.rows))
    | inl open_ ↦ elim (Bool-cases (a.policy_hash == ph)) [
      | inr e₁ ↦ rw (open_, e₁) (Evolves-refl (lookup k s.rows))
      | inl e₁ ↦ elim (Bool-cases (a.decision_hash == dh)) [
        | inr e₂ ↦ rw (open_, e₁, e₂) (Evolves-refl (lookup k s.rows))
        | inl e₂ ↦
            rw (open_, e₁, e₂)
              (insert-Evolves rid _ (
                rw e (
                  sym ((eq_iff a.policy_hash ph).0 e₁),
                  sym ((eq_iff a.decision_hash dh).0 e₂),
                  refl,
                  λ f. cc,
                )))
      ]
    ]
  ]

  resolve_on-Evolves :
      (rid : String) (st : State) (approver : Option String) (at : ℕ) (o : Option Approval)
      → lookup rid s.rows ≡ o
      → Evolves (lookup k s.rows) (lookup k (resolve_on rid st approver at o s).1.rows)
  resolve_on-Evolves rid st approver at none e = Evolves-refl _
  resolve_on-Evolves rid st approver at (some a) e = elim (Bool-cases (is_pending a.state)) [
    | inl open_ ↦ rw open_ (insert-Evolves rid _ (rw e (refl, refl, refl, λ f. cc)))
    | inr final ↦ elim (Bool-cases (same_state a.state st)) [
      | inl g ↦ rw (final, g) (Evolves-refl (lookup k s.rows))
      | inr g ↦ rw (final, g) (Evolves-refl (lookup k s.rows))
    ]
  ]

  fetch_on-Evolves :
      (rid : String) (now now' : ℕ) (o : Option Approval)
      → lookup rid s.rows ≡ o
      → Evolves (lookup k s.rows) (lookup k (fetch_on rid now now' o s).1.rows)
  fetch_on-Evolves rid now now' none e = Evolves-refl _
  fetch_on-Evolves rid now now' (some a) e = elim (Bool-cases (is_stale now a)) [
    | inl stale ↦ rw stale (
        insert-Evolves rid _
          (rw e (refl, refl, refl, λ f. absurd (not_stale_of_final a now f stale))))
    | inr g ↦ rw g (Evolves-refl (lookup k s.rows))
  ]

pub Evolves-trans : (a b c : Option Approval) → Evolves a b → Evolves b c → Evolves a c
Evolves-trans none b c h g = tt
Evolves-trans (some a) none c h g = absurd h
Evolves-trans (some a) (some b) none h g = absurd g
Evolves-trans (some a) (some b) (some c) (p, d, t, f) (p', d', t', f') =
    (p' ∙ p, d' ∙ d, t' ∙ t, λ final. f' (rw (f final) final) ∙ f final)

-- An action that lets every row only evolve.
abbrev pub Keeps : {A : Type 0} → Action A → Type 0
Keeps m = (k : String) (s : Store) → Evolves (lookup k s.rows) (lookup k (m s).1.rows)

lift-Keeps : {A : Type 0} (r : Result A) → Keeps (lift r)
lift-Keeps r k s = Evolves-refl (lookup k s.rows)

module _ {A B : Type 0} where
  continue-Keeps :
      (r : Result A) (f : A → Action B) → ((a : A) → Keeps (f a)) → Keeps (λ s. continue (r, s) f)
  continue-Keeps (ok a) f kf k s = kf a k s
  continue-Keeps (err e) f kf k s = Evolves-refl (lookup k s.rows)

  bind-Keeps :
      (m : Action A) (f : A → Action B) → Keeps m → ((a : A) → Keeps (f a)) → Keeps (m >>= f)
  bind-Keeps m f km kf k s =
      let (r, s') = m s in
      Evolves-trans (lookup k s.rows) (lookup k s'.rows) _ (km k s) (continue-Keeps r f kf k s')

pub create_pending-Keeps :
    (rid ph dh : String) (expires_at : Option ℕ) (now : ℕ)
    → Keeps (create_pending rid ph dh expires_at now)
unfolding create_pending
create_pending-Keeps rid ph dh expires_at now =
    bind-Keeps (validate_ids rid ph dh) _ (λ k s. validated k s)
      λ _.
        bind-Keeps (expire_expired now) (λ _. create_row rid ph dh expires_at now)
          (λ k s. expire_expired-Evolves k s now)
          λ _ k s. create_on-Evolves k s rid ph dh _ now (lookup rid s.rows) refl
  where
    validated : Keeps (validate_ids rid ph dh)
    validated = continue-Keeps (validate_nonempty_str "request_id" rid) _ λ _.
        continue-Keeps (validate_nonempty_str "policy_hash" ph) _
          λ _. lift-Keeps (validate_nonempty_str "decision_hash" dh)

pub resolve-Keeps :
    (rid state : String) (approver_id : Option String) (resolved_at : Option ℕ) (now : ℕ)
    → Keeps (resolve rid state approver_id resolved_at now)
unfolding resolve
resolve-Keeps rid state approver_id resolved_at now =
    continue-Keeps (validate_nonempty_str "request_id" rid) _ λ _.
      continue-Keeps (validate_state state) _
        λ st k s. resolve_on-Evolves k s rid st approver_id _ (lookup rid s.rows) refl

pub fetch-Keeps : (rid : String) (now now' : ℕ) → Keeps (fetch rid now now')
unfolding fetch
fetch-Keeps rid now now' =
    continue-Keeps (validate_nonempty_str "request_id" rid) _
      λ _ k s. fetch_on-Evolves k s rid now now' (lookup rid s.rows) refl

-- A call of the store, with the clock's readings.
pub data Call : Type 0 where
  creates : String → String → String → Option ℕ → ℕ → Call
  resolves : String → String → Option String → Option ℕ → ℕ → Call
  fetches : String → ℕ → ℕ → Call
  expires : ℕ → Call

-- The store after a call, whether it returned or raised.
abbrev pub perform : Call → Store → Store
perform (creates rid ph dh at now) s = (create_pending rid ph dh at now s).1
perform (resolves rid state approver_id at now) s = (resolve rid state approver_id at now s).1
perform (fetches rid now now') s = (fetch rid now now' s).1
perform (expires now) s = (expire_expired now s).1

abbrev pub run : List Call → Store → Store
run [] s = s
run (c ∷ calls) s = run calls (perform c s)

perform-Evolves :
    (c : Call) (k : String) (s : Store) → Evolves (lookup k s.rows) (lookup k (perform c s).rows)
perform-Evolves (creates rid ph dh at now) k s = create_pending-Keeps rid ph dh at now k s
perform-Evolves (resolves rid state a at now) k s = resolve-Keeps rid state a at now k s
perform-Evolves (fetches rid now now') k s = fetch-Keeps rid now now' k s
perform-Evolves (expires now) k s = expire_expired-Evolves k s now

-- Over any calls, failing ones included, a row is never lost, the policy hash, the decision hash and
-- the creation time that it was made with never change, and a row that is no longer pending stays
-- exactly as it is.
pub run-Evolves :
    (calls : List Call) (k : String) (s : Store)
    → Evolves (lookup k s.rows) (lookup k (run calls s).rows)
run-Evolves [] k s = Evolves-refl (lookup k s.rows)
run-Evolves (c ∷ calls) k s =
    Evolves-trans (lookup k s.rows) (lookup k (perform c s).rows) _ (perform-Evolves c k s)
      (run-Evolves calls k (perform c s))
