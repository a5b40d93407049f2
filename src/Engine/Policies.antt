-- ===== src/Engine/Policies.antt =====
-- policies.py and types.py: the validators of `PolicyResult`, `Context` and `ApprovalResult`, and the
-- two policies that always decide the same. The engine gets what these return.
use sudo_agent.Base.{String, Bool, true, false, Option, none, some, if◌then◌else◌, ◌&&◌}
use sudo_agent.Base.Text.{is_blank}
use sudo_agent.Value.{Value, null, dict, Items, Fields, end}
use sudo_agent.Engine.Common.{
  Decision, allow, deny, require_approval, Exn, exception, Result, ok, err, Context, PolicyResult,
}
use sudo_agent.Engine.Services.{Service}

-- pydantic's `ValidationError`, with the message of the first validator that fails
abbrev validation_error : String → Exn
validation_error m = exception "ValidationError" m

-- `_reason_non_empty`
abbrev pub validate_reason : String → Result String
unfolding is_blank
validate_reason value =
    if is_blank value then err (validation_error "reason must be a non-empty string") else ok value

-- `_reason_code_non_empty`
abbrev pub validate_reason_code : Option String → Result (Option String)
unfolding is_blank
validate_reason_code none = ok none
validate_reason_code (some value) =
    if is_blank value
    then err (validation_error "reason_code, if provided, must be non-empty")
    else ok (some value)

abbrev pub policy_result_from :
    Decision → Result String → Result (Option String) → Result PolicyResult
policy_result_from decision (err e) code = err e
policy_result_from decision (ok reason) (err e) = err e
policy_result_from decision (ok reason) (ok code) =
    ok (record { decision = decision; reason = reason; reason_code = code })

-- `PolicyResult(decision=…, reason=…, reason_code=…)`
unfoldable pub policy_result : Decision → String → Option String → Result PolicyResult
policy_result decision reason reason_code =
    policy_result_from decision (validate_reason reason) (validate_reason_code reason_code)

-- `AllowAllPolicy.evaluate` and `DenyAllPolicy.evaluate`
abbrev pub allow_all : {W : Type 0} → Context → Service W PolicyResult
unfolding policy_result
allow_all ctx w = (policy_result allow "allowed" (some "POLICY_ALLOW_LOW_RISK"), w)

abbrev pub deny_all : {W : Type 0} → Context → Service W PolicyResult
unfolding policy_result
deny_all ctx w = (policy_result deny "denied" (some "POLICY_DENY_HIGH_RISK"), w)

-- `_metadata_not_none`
abbrev pub validate_metadata : Value → Result Fields
validate_metadata null = ok end
validate_metadata (dict d) = ok d
validate_metadata v = err (exception "TypeError" "metadata must be a dict")

-- All fields are validated; a `TypeError` is raised at once.
abbrev pub context_from : String → Items → Fields → Result Fields → Result Context
unfolding is_blank
context_from action args kwargs (err e) = err e
context_from action args kwargs (ok metadata) =
    if is_blank action
    then err (validation_error "action must be a non-empty string")
    else ok (record { action = action; args = args; kwargs = kwargs; metadata = metadata })

-- `Context(action=…, args=…, kwargs=…, metadata=…)`
unfoldable pub context : String → Items → Fields → Value → Result Context
context action args kwargs metadata = context_from action args kwargs (validate_metadata metadata)

-- `ApprovalResult`
pub record ApprovalResult : Type 0 where
  pub decision : Decision
  pub reason : String
  pub request_id : Option String

abbrev pub is_missing : Option String → Bool
unfolding is_blank
is_missing none = true
is_missing (some request_id) = is_blank request_id

abbrev pub needs_request_id : Decision → Bool
needs_request_id require_approval = true
needs_request_id decision = false

-- `_require_request_id`
abbrev pub require_request_id : ApprovalResult → Result ApprovalResult
require_request_id r =
    if needs_request_id r.decision && is_missing r.request_id
    then err (validation_error "request_id is required when decision is REQUIRE_APPROVAL")
    else ok r

abbrev pub approval_result_from : Decision → Result String → Option String → Result ApprovalResult
approval_result_from decision (err e) request_id = err e
approval_result_from decision (ok reason) request_id =
    require_request_id (record { decision = decision; reason = reason; request_id = request_id })

-- `ApprovalResult(decision=…, reason=…, request_id=…)`
unfoldable pub approval_result : Decision → String → Option String → Result ApprovalResult
approval_result decision reason request_id =
    approval_result_from decision (validate_reason reason) request_id
