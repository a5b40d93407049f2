-- ===== src/Approvals/AsyncStore/Database.antt =====
-- approvals/async_store.py: the methods with the creation of the table that each of them begins with.
use sudo_agent.Base.{ℕ, ◌≡◌, refl, String, Bool, true, Option, if◌then◌else◌, Bool-cases, inl, inr}
use sudo_agent.Base.Dict.{lookup}
use sudo_agent.Approvals.Common.{State, Result, ok, err, validate_nonempty_str, validate_state}
use sudo_agent.Approvals.Store.{
  Approval, Store, Action, lift, continue, ◌>>=◌, ◌>>◌, validate_ids, at_or_now, fetch_on,
  expire_expired,
}
use sudo_agent.Approvals.Store
use sudo_agent.Approvals.AsyncStore.{create_row, create_pending, overwrite, resolve}

-- The object's flag, whether the database has the table, and the table (empty while there is none)
pub record AsyncDatabase : Type 0 where
  pub initialized : Bool
  pub has_table : Bool
  pub store : Store

-- What a method does: it returns or raises by itself, or `sqlite3.OperationalError` is raised.
pub data Reply (A : Type 0) : Type 0 where
  replies : Result A → Reply A
  no_such_table : Reply A

-- `initialize`, whose `CREATE TABLE IF NOT EXISTS` keeps a table that is there
abbrev pub initialize : AsyncDatabase → AsyncDatabase
initialize d = record d { initialized = true; has_table = true }

abbrev pub ensure_initialized : AsyncDatabase → AsyncDatabase
ensure_initialized d = if d.initialized then d else initialize d

abbrev pub on_table : {A : Type 0} → Action A → AsyncDatabase → Reply A × AsyncDatabase
on_table action d =
    let (r, s) = action d.store in
    if d.has_table then (replies r, record d { store = s }) else (no_such_table, d)

-- A method: its validators, then the table, then its statements
abbrev pub checked :
    {A B : Type 0} → Result B → (B → Action A) → AsyncDatabase → Reply A × AsyncDatabase
checked (err e) statements d = (replies (err e), d)
checked (ok b) statements d = on_table (statements b) (ensure_initialized d)

abbrev pub then_state : Result Unit → Result State → Result State
then_state (ok u) r = r
then_state (err e) r = err e

unfoldable pub create_pending_method :
    String → String → String → Option ℕ → ℕ → AsyncDatabase → Reply Unit × AsyncDatabase
create_pending_method rid policy_hash decision_hash expires_at now d =
    checked (validate_ids rid policy_hash decision_hash d.store).0
      (λ _. create_row rid policy_hash decision_hash expires_at now) d

unfoldable pub resolve_method :
    String → String → Option String → Option ℕ → ℕ → AsyncDatabase → Reply Unit × AsyncDatabase
resolve_method rid state approver_id resolved_at now =
    checked (then_state (validate_nonempty_str "request_id" rid) (validate_state state))
      (λ new_state s.
        overwrite rid new_state approver_id (at_or_now resolved_at now) (lookup rid s.rows) s)

unfoldable pub fetch_method :
    String → ℕ → ℕ → AsyncDatabase → Reply (Option Approval) × AsyncDatabase
fetch_method rid now now' =
    checked (validate_nonempty_str "request_id" rid)
      (λ _ s. fetch_on rid now now' (lookup rid s.rows) s)

unfoldable pub expire_expired_method : ℕ → AsyncDatabase → Reply ℕ × AsyncDatabase
expire_expired_method now d = on_table (expire_expired now) (ensure_initialized d)

-- The flag is set only where the table is there.
abbrev pub IsHonest : AsyncDatabase → Type 0
IsHonest d = d.initialized ≡ true → d.has_table ≡ true

-- The method does on the table what the action does, and leaves the flag true to the table.
abbrev pub Does : {A : Type 0} → Reply A × AsyncDatabase → Result A × Store → Type 0
Does (reply, d) (r, s) = (reply ≡ replies r) × (d.store ≡ s) × IsHonest d

ensured-Does :
    {A : Type 0} (action : Action A) (d : AsyncDatabase)
    → IsHonest d
    → Does (on_table action (ensure_initialized d)) (action d.store)
ensured-Does action d honest = elim (Bool-cases d.initialized) [
  | inl h ↦ rw (h, honest h) (refl, refl, λ x. refl)
  | inr h ↦ rw h (refl, refl, λ x. refl)
]

checked-Does :
    {A B : Type 0} (r : Result B) (statements : B → Action A) (d : AsyncDatabase)
    → IsHonest d
    → Does (checked r statements d) (continue (r, d.store) statements)
checked-Does (err e) statements d honest = (refl, refl, honest)
checked-Does (ok b) statements d honest = ensured-Does (statements b) d honest

validated-Does :
    {A B : Type 0} (p : Result B × Store) (statements : B → Action A) (d : AsyncDatabase)
    → p.1 ≡ d.store
    → IsHonest d
    → Does (checked p.0 statements d) (continue p statements)
validated-Does (r, s) statements d same honest = rw same (checked-Does r statements d honest)

then_state-Does :
    {A : Type 0} (u : Result Unit) (r : Result State) (statements : State → Action A)
    (d : AsyncDatabase)
    → IsHonest d
    → Does
        (checked (then_state u r) statements d)
        (continue (u, d.store) (λ _ s. continue (r, s) statements))
then_state-Does (ok u) r statements d honest = checked-Does r statements d honest
then_state-Does (err e) r statements d honest = (refl, refl, honest)

-- Validators change nothing.
lifted_store : (a b c : Result Unit) (s : Store) → ((lift a >> (lift b >> lift c)) s).1 ≡ s
lifted_store (ok u) (ok v) c s = refl
lifted_store (ok u) (err e) c s = refl
lifted_store (err e) b c s = refl

-- Where the flag is true to the table, each method works on the table as its validators and statements
-- do, whatever the answer, never meets a missing table, and leaves the flag true to it.
pub methods-Does :
    (d : AsyncDatabase)
    → IsHonest d
    → (rid policy_hash decision_hash state : String) (approver_id : Option String) (at : Option ℕ)
      (now now' : ℕ)
    → Does
        (create_pending_method rid policy_hash decision_hash at now d)
        (create_pending rid policy_hash decision_hash at now d.store)
      × Does
          (resolve_method rid state approver_id at now d)
          (resolve rid state approver_id at now d.store)
      × Does (fetch_method rid now now' d) (Store.fetch rid now now' d.store)
      × Does (expire_expired_method now d) (expire_expired now d.store)
unfolding create_pending_method resolve_method fetch_method expire_expired_method create_pending
    resolve Store.fetch
methods-Does d honest rid policy_hash decision_hash state approver_id at now now' = (
  validated-Does (validate_ids rid policy_hash decision_hash d.store) _ d
      (lifted_store (validate_nonempty_str "request_id" rid)
        (validate_nonempty_str "policy_hash" policy_hash)
        (validate_nonempty_str "decision_hash" decision_hash) d.store)
      honest,
  then_state-Does (validate_nonempty_str "request_id" rid) (validate_state state) _ d honest,
  checked-Does (validate_nonempty_str "request_id" rid) _ d honest,
  ensured-Does (expire_expired now) d honest,
)
