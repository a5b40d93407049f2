-- ===== src/Engine/Reasons.antt =====
-- async_engine.py: the reason codes, the deadlines and the metadata that go with a decision.
use sudo_agent.Base.{
  ℕ, ◌+◌, ◌-◌, ◌*◌, String, Bool, true, false, Option, none, some, [], ◌∷◌, ◌==◌, leb,
  if◌then◌else◌,
}
use sudo_agent.Base.Int.{ℤ, pos, negsuc}
use sudo_agent.Value.{bool, str, Fields, fields, opt_str}
use sudo_agent.Engine.Common.{
  Decision, allow, deny, require_approval, unknown, Exn, type_name, PolicyResult, safe_message,
}
use sudo_agent.Engine.Approval.{Answer}

-- `_DEFAULT_REASON_CODES.get(decision)`
abbrev pub default_reason_code : Decision → Option String
default_reason_code allow = some "POLICY_ALLOW_LOW_RISK"
default_reason_code deny = some "POLICY_DENY_HIGH_RISK"
default_reason_code require_approval = some "POLICY_REQUIRE_APPROVAL_HIGH_VALUE"
default_reason_code (unknown _) = none

-- `getattr(result, "reason_code", None) or …`
abbrev pub reason_code_of : PolicyResult → Option String
reason_code_of r = or_code r.reason_code (default_reason_code r.decision)
  where
    or_code : Option String → Option String → Option String
    or_code none d = d
    or_code (some code) d = if code == "" then d else some code

abbrev pub scope_code : Option String → String
scope_code none = "BUDGET_EVALUATION_FAILED"
scope_code (some s) =
    if s == "agent"
    then "BUDGET_EXCEEDED_AGENT_RATE"
    else if s == "tool"
    then "BUDGET_EXCEEDED_TOOL_RATE"
    else "BUDGET_EVALUATION_FAILED"

-- `now + timedelta(seconds=ttl)`, in microseconds
abbrev pub expiry : ℕ → ℤ → ℤ
expiry t (pos n) = pos (t + n * 1000000)
expiry t (negsuc n) =
    let back = (n + 1) * 1000000 in if leb back t then pos (t - back) else negsuc (back - t - 1)

abbrev pub min_ttl : ℤ → Option ℤ → ℤ
min_ttl t none = t
min_ttl (pos a) (some (pos b)) = if leb a b then pos a else pos b
min_ttl (pos a) (some (negsuc b)) = negsuc b
min_ttl (negsuc a) (some (pos b)) = negsuc a
min_ttl (negsuc a) (some (negsuc b)) = if leb b a then negsuc a else negsuc b

-- The dict of `_safe_error_for_ledger`
abbrev pub error_fields : Exn → Bool → ℕ → Fields
error_fields e include_message max_length =
    let m = safe_message e include_message max_length in
    fields (("error", str m) ∷ ("error_type", str (type_name e)) ∷ ("error_message", str m) ∷ [])

-- The `approval_info` of a decision without approval, in the given state.
abbrev pub not_approved : String → Fields
not_approved state = fields (
    ("approved", bool false)
    ∷ ("state", str state)
    ∷ ("policy_decision", str "require_approval")
    ∷ [])

abbrev pub denied_metadata : Answer → Fields
denied_metadata a = fields (
    ("approved", bool false)
    ∷ ("policy_decision", str "require_approval")
    ∷ ("approval_binding", a.binding)
    ∷ [])

abbrev pub denied_info : Answer → Fields
denied_info a = fields (
    ("approved", bool false)
    ∷ ("state", str "denied")
    ∷ ("approver_id", opt_str a.approver_id)
    ∷ ("approval_binding", a.binding)
    ∷ ("policy_decision", str "require_approval")
    ∷ [])

abbrev pub approved_metadata : Answer → Fields
approved_metadata a = fields (
    ("approval_binding", a.binding)
    ∷ ("approved", bool true)
    ∷ ("approver_id", opt_str a.approver_id)
    ∷ ("policy_decision", str "require_approval")
    ∷ [])
