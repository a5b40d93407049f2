-- ===== src/Budgets/Common.antt =====
-- budgets.py: the errors, and the check and commit that both managers share.
-- Instants are integers (microseconds); costs are natural numbers once `_validate_cost` has passed.
use sudo_agent.Base.{
  ℕ, ◌+◌, String, Bool, true, false, Option, none, some, ◌||◌, ltb, if◌then◌else◌,
}
use sudo_agent.Base.Int.{ℤ, pos, negsuc}

-- `BudgetExceeded(message, scope=...)`, `BudgetStateError`, the constructors' `ValueError`, and what
-- sqlite3 raises: `IntegrityError` on a second row with one primary key, `OverflowError` on an integer
-- that does not fit in 64 bits, and `OperationalError` on a `SUM` that does not.
pub data Error : Type 0 where
  exceeded : String → Option String → Error
  state_error : String → Error
  value_error : String → Error
  integrity_error overflow_error operational_error : Error

pub data Result (A : Type 0) : Type 0 where
  ok : A → Result A
  err : Error → Result A

-- A method: what it wrote before it raised stays written.
abbrev pub Action : Type 0 → Type 0 → Type 0
Action S A = S → Result A × S

module _ {S : Type 0} where
  abbrev pub pure : {A : Type 0} → A → Action S A
  pure a s = (ok a, s)

  abbrev pub raise : {A : Type 0} → Error → Action S A
  raise e s = (err e, s)

  abbrev pub gets : {A : Type 0} → (S → A) → Action S A
  gets f s = (ok (f s), s)

  abbrev pub modify : (S → S) → Action S Unit
  modify f s = (ok tt, f s)

  abbrev pub lift : {A : Type 0} → Result A → Action S A
  lift r s = (r, s)

abbrev pub continue : {S A B : Type 0} → Result A × S → (A → Action S B) → Result B × S
continue (ok a, s) f = f a s
continue (err e, s) f = (err e, s)

infixl 5 ◌>>=◌ ◌>>◌
abbrev pub ◌>>=◌ : {S A B : Type 0} → Action S A → (A → Action S B) → Action S B
◌>>=◌ m f s = continue (m s) f

abbrev pub ◌>>◌ : {S B : Type 0} → Action S Unit → Action S B → Action S B
m >> k = m >>= λ _. k

-- The tuple `(agent, tool, cost, timestamp)` that both dicts hold.
pub record Charge : Type 0 where
  pub agent : String
  pub tool : String
  pub cost : ℕ
  pub ts : ℕ

pub record CheckResult : Type 0 where
  pub request_id : String
  pub agent : String
  pub tool : String
  pub cost : ℕ
  pub accepted : Bool

-- The two values that `key_type` is given.
pub data KeyType : Type 0 where
  by_agent by_tool : KeyType

pub record Limits : Type 0 where
  pub agent_limit : Option ℕ
  pub tool_limit : Option ℕ

-- A negative cost is refused; the value goes on as the natural number that it is.
unfoldable pub validate_cost : ℤ → Result ℕ
validate_cost (pos n) = ok n
validate_cost (negsuc n) = err (state_error "cost must be non-negative")

-- `limit is not None and usage + cost > limit`
abbrev pub over : Option ℕ → ℕ → ℕ → Bool
over none usage cost = false
over (some limit) usage cost = ltb limit (usage + cost)

unfoldable pub enforce_limits : ℕ → ℕ → ℕ → Limits → Result Unit
enforce_limits agent_usage tool_usage cost l =
    if over l.agent_limit agent_usage cost
    then err (exceeded "agent budget exceeded" (some "agent"))
    else if over l.tool_limit tool_usage cost
    then err (exceeded "tool budget exceeded" (some "tool"))
    else ok tt

-- The callbacks of `_check_common`.
pub record CheckOps (S : Type 0) : Type 0 where
  pub exists_committed : String → Action S Bool
  pub exists_pending : String → Action S Bool
  pub usage : KeyType → String → Action S ℕ
  pub add_pending : String → Charge → Action S Unit

-- The callbacks of `_commit_common`.
pub record CommitOps (S : Type 0) : Type 0 where
  pub exists_committed : String → Action S Bool
  pub get_pending : String → Action S (Option Charge)
  pub add_committed : String → Charge → Action S Unit
  pub delete_pending : String → Action S Unit
  pub on_spend : ℕ → Action S Unit

module _ {S : Type 0} where
  unfoldable pub check_common :
      CheckOps S → String → String → String → ℕ → ℕ → Limits → Action S CheckResult
  unfolding enforce_limits
  check_common ops request_id agent tool cost now limits = do
    committed ← ops.exists_committed request_id
    pending ← ops.exists_pending request_id
    let result : CheckResult = record {
      request_id = request_id;
      agent = agent;
      tool = tool;
      cost = cost;
      accepted = true;
    }
    if committed || pending then pure result else do
      agent_usage ← ops.usage by_agent agent
      tool_usage ← ops.usage by_tool tool
      lift (enforce_limits agent_usage tool_usage cost limits)
      ops.add_pending request_id (record { agent = agent; tool = tool; cost = cost; ts = now })
      pure result

  -- The rest of `_commit_common` when a pending record was looked up.
  abbrev commit_found : CommitOps S → String → ℕ → Bool → Option Charge → Action S Unit
  commit_found ops request_id now spend_counter none =
      raise (state_error "pending check not found for commit")
  commit_found ops request_id now spend_counter (some c) = do
    ops.add_committed request_id (record c { ts = now })
    if spend_counter then ops.on_spend c.cost else pure tt
    ops.delete_pending request_id

  unfoldable pub commit_common : CommitOps S → String → ℕ → Bool → Action S Unit
  commit_common ops request_id now spend_counter = do
    committed ← ops.exists_committed request_id
    if committed then pure tt else do
      pending ← ops.get_pending request_id
      commit_found ops request_id now spend_counter pending
