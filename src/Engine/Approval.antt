-- ===== src/Engine/Approval.antt =====
-- async_engine.py, `_parse_approval_response`.
pub mod Binding
pub mod Polled
use sudo_agent.Base.{
  ℕ, zero, suc, ◌+◌, String, Bool, true, false, Option, none, some, List, [], ◌∷◌, ◌&&◌, ◌==◌, not,
  if◌then◌else◌,
}
use sudo_agent.Base.Text.{is_blank}
use sudo_agent.Value.{
  Value, null, str, dict, mixed_dict, Fields, end, field, fields, is_text, truthy,
}
use sudo_agent.Value.Dict.{get, lookup}
use sudo_agent.Engine.Services.{Response, answer, mapping, malformed}

-- `(approved, binding, approver_id)`
pub record Answer : Type 0 where
  pub approved : Bool
  pub binding : Value
  pub approver_id : Option String

-- The binding that is expected.
abbrev pub expected_binding : String → String → String → Fields
expected_binding request_id policy_hash decision_hash = fields (
    ("request_id", str request_id)
    ∷ ("policy_hash", str policy_hash)
    ∷ ("decision_hash", str decision_hash)
    ∷ [])

abbrev pub size : Fields → ℕ
size end = 0
size (field k v d) = 1 + size d

-- Each entry of the second dict, whose values are texts, is in the first.
abbrev pub agrees : Fields → Fields → Bool
agrees b end = true
agrees b (field k (str t) d) = is_text (get k b) t && agrees b d
agrees b (field k _ d) = false

abbrev pub same_size : ℕ → ℕ → Bool
same_size zero zero = true
same_size (suc a) (suc b) = same_size a b
same_size _ _ = false

-- `binding == dict(expected)`
abbrev pub same_binding : Value → Fields → Bool
same_binding (dict b) e = same_size (size b) (size e) && agrees b e
same_binding _ e = false

-- `raw_approver`, if it is a text that is not blank
abbrev pub approver_of : Value → Option String
unfolding is_blank
approver_of (str s) = if is_blank s then none else some s
approver_of _ = none

-- `response.get("approved", raw_binding is not None)`
abbrev pub approved_of : Option Value → Value → Bool
approved_of (some v) raw_binding = truthy v
approved_of none null = false
approved_of none raw_binding = true

module _ (str_of : Value → String) where
  -- `str(v)`
  abbrev pub text : Value → Value
  text (str s) = str s
  text v = str (str_of v)

  abbrev pub texts : Fields → Fields
  texts end = end
  texts (field k v d) = field k (text v) (texts d)

  -- The binding of a response: its own if it has one that is a mapping.
  abbrev pub binding_of : Value → Fields → Value
  binding_of (dict d) expected = dict (texts d)
  binding_of mixed_dict expected = mixed_dict
  binding_of _ expected = dict expected

  unfoldable pub parse_approval_response : Response → Fields → Answer
  unfolding is_blank
  parse_approval_response (answer b) expected = record {
    approved = b;
    binding = dict expected;
    approver_id = none;
  }
  parse_approval_response malformed expected = record {
    approved = false;
    binding = dict expected;
    approver_id = none;
  }
  parse_approval_response (mapping d) expected =
      let binding = binding_of (get "binding" d) expected in
      record {
        approved =
            approved_of (lookup "approved" d) (get "binding" d) && same_binding binding expected;
        binding = binding;
        approver_id = approver_of (get "approver_id" d);
      }
