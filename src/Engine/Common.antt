-- ===== src/Engine/Common.antt =====
-- types.py, errors.py, policies.py and reason_codes.py: the data of a guarded call. An exception
-- keeps what the engine reads of it; `from exc` is kept where the engine reads `__cause__`.
use Prim.Native.String.{◌++◌ as ◌<>◌}
use sudo_agent.Base.{
  ℕ, ◌-◌, String, Bool, true, false, Option, none, some, ◌==◌, ◌||◌, ltb, if◌then◌else◌, is_some,
}
use sudo_agent.Base.Text.{is_blank, len, take, has_char}
use sudo_agent.Value.{Items, Fields}

-- `Decision`, and any other object that a policy can return in its place.
pub data Decision : Type 0 where
  allow deny require_approval : Decision
  unknown : String → Decision

abbrev pub effect : Decision → String
effect allow = "allow"
effect deny = "deny"
effect require_approval = "require_approval"
effect (unknown s) = s

pub data Exn : Type 0 where
  budget_exceeded : String → Option String → Exn
  budget_state_error : String → Exn
  policy_error : String → Exn
  policy_error_from : String → Exn → Exn
  approval_denied : String → Exn
  approval_error : String → Exn
  audit_log_error : String → Exn
  timeout_error : Exn
  exception : String → String → Exn
  base_exception : String → Exn

-- `isinstance(exc, Exception)`
abbrev pub is_exception : Exn → Bool
is_exception (base_exception _) = false
is_exception _ = true

-- `type(exc).__name__`
abbrev pub type_name : Exn → String
type_name (budget_exceeded _ _) = "BudgetExceeded"
type_name (budget_state_error _) = "BudgetStateError"
type_name (policy_error _) = "PolicyError"
type_name (policy_error_from _ _) = "PolicyError"
type_name (approval_denied _) = "ApprovalDenied"
type_name (approval_error _) = "ApprovalError"
type_name (audit_log_error _) = "AuditLogError"
type_name timeout_error = "TimeoutError"
type_name (exception name _) = name
type_name (base_exception name) = name

-- `str(exc)`
abbrev pub message : Exn → String
message (budget_exceeded m _) = m
message (budget_state_error m) = m
message (policy_error m) = m
message (policy_error_from m _) = m
message (approval_denied m) = m
message (approval_error m) = m
message (audit_log_error m) = m
message timeout_error = ""
message (exception _ m) = m
message (base_exception _) = ""

pub data Result (A : Type 0) : Type 0 where
  ok : A → Result A
  err : Exn → Result A

-- `PolicyResult`
pub record PolicyResult : Type 0 where
  pub decision : Decision
  pub reason : String
  pub reason_code : Option String

-- `Context`
pub record Context : Type 0 where
  pub action : String
  pub args : Items
  pub kwargs : Fields
  pub metadata : Fields

-- `AuditEntry`
pub record AuditEntry : Type 0 where
  pub timestamp : ℕ
  pub request_id : String
  pub event : String
  pub action : String
  pub decision : Decision
  pub reason : String
  pub outcome : Option String
  pub error_type : Option String
  pub error : Option String
  pub metadata : Fields

-- `_truncate_error`
abbrev pub truncate_error : Option String → Option String
truncate_error none = none
truncate_error (some s) = if ltb 200 (len s) then some (take 197 s <> "...") else some s

-- The validators that run when an `AuditEntry` is made, from the given arguments.
unfoldable pub validate_audit_entry : AuditEntry → Result AuditEntry
unfolding is_blank
validate_audit_entry e =
    if is_blank e.request_id
    then err (exception "ValidationError" "request_id must be a non-empty string")
    else if e.event == "outcome"
    then (if is_some e.outcome
        then ok (record e { error = truncate_error e.error })
        else err (exception "ValidationError" "outcome is required when event is 'outcome'"))
    else ok (record e { error = truncate_error e.error })

-- What `_safe_error_for_ledger` does to the text: one with a path separator is replaced by the
-- type's name, and one that is too long is cut. `raw_msg[:max_length - 3]` with a negative bound
-- drops that many from the end.
abbrev cut : ℕ → String → String
cut max_length s =
    if ltb max_length 3 then take (len s - (3 - max_length)) s else take (max_length - 3) s

unfoldable pub safe_message : Exn → Bool → ℕ → String
safe_message exc include_message max_length =
    let error_type = type_name exc in
    let raw = if include_message then message exc else error_type in
    let clean = if has_char 47 raw || has_char 92 raw then error_type else raw in
    if ltb max_length (len clean) then cut max_length clean <> "..." else clean
