-- ===== src/Engine/Approval/Binding.antt =====
-- What an answer must say to count as an approval.
use sudo_agent.Base.{String, ◌≡◌, refl, Bool, true, false, ◌&&◌, arith, eq_iff}
use sudo_agent.Value.{
  Value, null, bool, int, float, decimal, str, bytes, list, tuple, dict, mixed_dict, other, Fields,
  is_text,
}
use sudo_agent.Value.Dict.{get, lookup, at}
use sudo_agent.Engine.Services.{Response, answer, mapping, malformed}
use sudo_agent.Engine.Approval.{
  expected_binding, agrees, same_binding, approved_of, parse_approval_response,
}

-- The binding names this request, this policy and this decision.
pub record BindsTo (binding : Value) (request_id policy_hash decision_hash : String) : Type 0 where
  pub request : is_text (at "request_id" binding) request_id ≡ true
  pub policy : is_text (at "policy_hash" binding) policy_hash ≡ true
  pub decision : is_text (at "decision_hash" binding) decision_hash ≡ true

-- The answer says yes: `True`, a true `approved`, or a binding with nothing said of `approved`.
abbrev pub SaysYes : Response → Type 0
SaysYes (answer b) = b ≡ true
SaysYes malformed = false ≡ true
SaysYes (mapping d) = approved_of (lookup "approved" d) (get "binding" d) ≡ true

both : (a b : Bool) → (a && b) ≡ true → (a ≡ true) × (b ≡ true)
both true b h = (refl, h)
both false b h = absurd (cc h)

agrees-BindsTo :
    (b : Value) (d : Fields) (rid ph dh : String)
    → b ≡ dict d
    → agrees d (expected_binding rid ph dh) ≡ true
    → BindsTo b rid ph dh
agrees-BindsTo b d rid ph dh e h = rw e (record {
  request = (both _ _ h).0;
  policy = (both _ _ (both _ _ h).1).0;
  decision = (both _ _ (both _ _ (both _ _ h).1).1).0;
})

same_binding-BindsTo :
    (b : Value) (rid ph dh : String)
    → same_binding b (expected_binding rid ph dh) ≡ true
    → BindsTo b rid ph dh
same_binding-BindsTo (dict d) rid ph dh h = agrees-BindsTo (dict d) d rid ph dh refl (both _ _ h).1
same_binding-BindsTo null rid ph dh h = absurd (cc h)
same_binding-BindsTo (bool b) rid ph dh h = absurd (cc h)
same_binding-BindsTo (int n) rid ph dh h = absurd (cc h)
same_binding-BindsTo (float r) rid ph dh h = absurd (cc h)
same_binding-BindsTo (decimal x) rid ph dh h = absurd (cc h)
same_binding-BindsTo (str s) rid ph dh h = absurd (cc h)
same_binding-BindsTo (bytes n) rid ph dh h = absurd (cc h)
same_binding-BindsTo (list l) rid ph dh h = absurd (cc h)
same_binding-BindsTo (tuple l) rid ph dh h = absurd (cc h)
same_binding-BindsTo mixed_dict rid ph dh h = absurd (cc h)
same_binding-BindsTo (other s b) rid ph dh h = absurd (cc h)

expected-BindsTo : (rid ph dh : String) → BindsTo (dict (expected_binding rid ph dh)) rid ph dh
expected-BindsTo rid ph dh = record {
  request = ground (arith, eq_iff rid rid);
  policy = ground (arith, eq_iff ph ph);
  decision = ground (arith, eq_iff dh dh);
}

-- What counts as an approval says yes and, whether the answer brings a binding or not, the binding
-- that is recorded names this request, this policy and this decision.
pub parse-BindsTo :
    (str_of : Value → String) (response : Response) (rid ph dh : String)
    → let a = parse_approval_response str_of response (expected_binding rid ph dh) in
      a.approved ≡ true → BindsTo a.binding rid ph dh × SaysYes response
unfolding parse_approval_response
parse-BindsTo str_of (answer b) rid ph dh h = (expected-BindsTo rid ph dh, h)
parse-BindsTo str_of malformed rid ph dh h = (expected-BindsTo rid ph dh, h)
parse-BindsTo str_of (mapping d) rid ph dh h =
    (same_binding-BindsTo _ rid ph dh (both _ _ h).1, (both _ _ h).0)
