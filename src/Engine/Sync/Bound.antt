-- ===== src/Engine/Sync/Bound.antt =====
-- approvals_store.py: the row of a request from its creation to its approval, as the engine asks for them.
use sudo_agent.Base.{ℕ, String, ◌≡◌, refl, ◌∙◌, Option, none, some, arith, eq_iff}
use sudo_agent.Base.Dict.{lookup}
use sudo_agent.Approvals.Common.{
  State, pending, approved, denied, expired, failed, state_name, validate_nonempty_str,
}
use sudo_agent.Approvals.Common
use sudo_agent.Approvals.Store
use sudo_agent.Approvals.Store.{
  Approval, Store, Action, create_pending, create_row, validate_ids, expire_expired, resolve,
}
use sudo_agent.Approvals.Store.Lifecycle.{Evolves, resolve-Keeps}
use sudo_agent.Approvals.Store.Outcomes.{ResolveSpec, resolve-Spec, lookup-insert_self}
use sudo_agent.Approvals.Store.Rows.{lookup-expire_rows}

-- The row is there, and is of this policy and this decision.
abbrev pub IsBound : String → String → Option Approval → Type 0
IsBound policy_hash decision_hash none = ⊥
IsBound policy_hash decision_hash (some a) =
    (a.policy_hash ≡ policy_hash) × (a.decision_hash ≡ decision_hash)

-- It is approved as well.
abbrev pub IsApproved : String → String → Option Approval → Type 0
IsApproved policy_hash decision_hash none = ⊥
IsApproved policy_hash decision_hash (some a) =
    (a.state ≡ approved) × (a.policy_hash ≡ policy_hash) × (a.decision_hash ≡ decision_hash)

module _ (ph dh : String) where
  pub IsBound-Evolves : (o o' : Option Approval) → Evolves o o' → IsBound ph dh o → IsBound ph dh o'
  IsBound-Evolves none o' h b = absurd b
  IsBound-Evolves (some a) none h b = absurd h
  IsBound-Evolves (some a) (some c) (p, d, t, f) (p', d') = (p ∙ p', d ∙ d')

  pub IsApproved-Evolves :
      (o o' : Option Approval) → Evolves o o' → IsApproved ph dh o → IsApproved ph dh o'
  IsApproved-Evolves none o' h b = absurd b
  IsApproved-Evolves (some a) none h b = absurd h
  IsApproved-Evolves (some a) (some c) (p, d, t, f) (g, p', d') =
      (rw (f (rw g refl)) g, p ∙ p', d ∙ d')

state_name-approved : (st : State) → state_name st ≡ "approved" → st ≡ approved
state_name-approved approved h = refl
state_name-approved pending h = absurd (ground (arith, eq_iff "pending" "approved"))
state_name-approved denied h = absurd (ground (arith, eq_iff "denied" "approved"))
state_name-approved expired h = absurd (ground (arith, eq_iff "expired" "approved"))
state_name-approved failed h = absurd (ground (arith, eq_iff "failed" "approved"))

-- What holds in the store of a call that did not raise
abbrev pub Succeeds : {A : Type 0} → (Store → Type 0) → Common.Result A × Store → Type 0
Succeeds P (Common.ok a, s) = P s
Succeeds P (Common.err e, s) = Unit

validated-Succeeds :
    {A B : Type 0} (P : Store → Type 0) (s : Store) (p : Common.Result A × Store) (f : A → Action B)
    → p.1 ≡ s
    → ((a : A) → Succeeds P (f a s))
    → Succeeds P (Store.continue p f)
validated-Succeeds P s (Common.ok a, s') f e h = rw e (h a)
validated-Succeeds P s (Common.err x, s') f e h = tt

continue_same :
    {A B : Type 0} (r : Common.Result A) (f : A → Action B) (s : Store)
    → ((a : A) → (f a s).1 ≡ s)
    → (Store.continue (r, s) f).1 ≡ s
continue_same (Common.ok a) f s h = h a
continue_same (Common.err e) f s h = refl

module _ (rid ph dh : String) where
  abbrev pub StoreBound : Store → Type 0
  StoreBound s = IsBound ph dh (lookup rid s.rows)

  abbrev pub StoreApproved : Store → Type 0
  StoreApproved s = IsApproved ph dh (lookup rid s.rows)

  -- A row that is made for a new id is bound to what it was made for.
  create_row-Bound :
      (at : Option ℕ) (now : ℕ) (s : Store)
      → lookup rid s.rows ≡ none
      → Succeeds StoreBound (create_row rid ph dh at now s)
  create_row-Bound at now s fresh = rw (fresh, lookup-insert_self rid _ s) (refl, refl)

  pub swept :
      (now : ℕ) (s : Store)
      → lookup rid s.rows ≡ none
      → lookup rid (expire_expired now s).1.rows ≡ none
  unfolding expire_expired
  swept now s fresh = rw (lookup-expire_rows, fresh) refl

  pub create_pending-Bound :
      (at : Option ℕ) (now : ℕ) (s : Store)
      → lookup rid s.rows ≡ none
      → Succeeds StoreBound (create_pending rid ph dh at now s)
  unfolding create_pending
  create_pending-Bound at now s fresh =
      validated-Succeeds StoreBound s (validate_ids rid ph dh s) _ same
        λ _. create_row-Bound at now (expire_expired now s).1 (swept now s fresh)
    where
      same : (validate_ids rid ph dh s).1 ≡ s
      same =
          continue_same (validate_nonempty_str "request_id" rid) _ s
            λ _. continue_same (validate_nonempty_str "policy_hash" ph) _ s λ _. refl

  resolved :
      (s : Store) (p : Common.Result Unit × Store)
      → ResolveSpec rid "approved" s p
      → Evolves (lookup rid s.rows) (lookup rid p.1.rows)
      → StoreBound s
      → Succeeds StoreApproved p
  resolved s (Common.ok u, s') (a, found, named) moved bound =
      let (p, d) =
        rw found at (IsBound-Evolves ph dh (lookup rid s.rows) (lookup rid s'.rows) moved bound) in
      rw found (state_name-approved a.state named, p, d)
  resolved s (Common.err e, s') spec moved bound = tt

  pub resolve-Approved :
      (approver : Option String) (now : ℕ) (s : Store)
      → StoreBound s
      → Succeeds StoreApproved (resolve rid "approved" approver none now s)
  resolve-Approved approver now s bound =
      resolved s _ (resolve-Spec rid "approved" approver none now s)
        (resolve-Keeps rid "approved" approver none now rid s) bound
