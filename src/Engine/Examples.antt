-- ===== src/Engine/Examples.antt =====
-- Runs of the engine over a small world, and its theorems at concrete data.
use sudo_agent.Base.{ℕ, zero, suc, ◌≡◌, refl, arith, true, false, none, some, [], ◌∷◌}
use sudo_agent.Base.Int.{pos}
use sudo_agent.Value.{Value, null, bool, str, dict, nil, end, fields}
use sudo_agent.Engine.Common.{
  Decision, allow, deny, require_approval, approval_denied, exception, Result, ok, err,
  PolicyResult, AuditEntry, validate_audit_entry, safe_message,
}
use sudo_agent.Engine.Services.{Policy, Response, answer, mapping, Engine, Run, ◌>>=◌, attempt}
use sudo_agent.Engine.Build.{ExecutionState, build_state, get_policy_id}
use sudo_agent.Engine.Approval.{expected_binding, parse_approval_response}
use sudo_agent.Engine.Approval.Binding.{BindsTo, SaysYes, parse-BindsTo}
use sudo_agent.Engine.Logging.{log_decision, log_outcome}
use sudo_agent.Engine.Entries.{decision_entry, outcome_entry}
use sudo_agent.Engine.Execute.{run_func, execute_allowed, execute_with_approval, execute}
use sudo_agent.Engine.Bounds.{Fits, stored_errors-Fit}
use sudo_agent.Engine.Policies.{approval_result, context}
use sudo_agent.Base.Text.{is_blank}
use sudo_agent.Engine.Traces.{calls, IsGuarded}
use sudo_agent.Engine.Execute.Guarded.{execute-IsGuarded}
use sudo_agent.Engine.Execute.Refused.{
  IsRefused, execute-IsRefused, execute_with_approval-IsRefused,
}
use sudo_agent.Engine.Execute.BestEffort.{
  RaisesExceptions, LogsRaiseExceptions, Tallies, run_func-Tallies,
}

-- A policy that always decides the same. The world counts the appends to the ledger.
abbrev fixed : Decision → Policy ℕ
fixed d = record {
  evaluate = λ ctx w. (ok (record { decision = d; reason = "rule"; reason_code = none }), w);
  policy_id = some "p1";
  version = null;
  policy_hash = some "ph";
  class_module = "m";
  class_qualname = "C";
  source = none;
}

-- The second append fails.
abbrev append : Value → ℕ → Result Unit × ℕ
append v zero = (ok tt, 1)
append v (suc n) = (err (exception "OSError" "disk full"), suc (suc n))

abbrev engine : Decision → Response → Engine ℕ
engine d response = record {
  policy = fixed d;
  approve = λ ctx result rid ttl w. (ok response, w);
  append = append;
  log = λ e w. (ok tt, w);
  budget_manager = none;
  approval_store = none;
  agent_id = "bot";
  on_error = none;
  include_error_messages = true;
  max_error_length = 200;
  uuid4 = λ w. ("r1", w);
  clock = λ w. 7;
  format_timestamp = λ t. "2026";
  sha256_hex = λ v. ok "dh";
  redact_args = λ a. ok a;
  redact_kwargs = λ k. ok k;
  str_of = λ v. "";
}

abbrev idle : Run ℕ
idle = record { world = 0; trace = []; error_count = 0 }

abbrev func : ℕ → Result ℕ × ℕ
func w = (ok 42, w)

-- Allowed: the function's result is returned though the outcome could not be written.
allowed :
    let (r, s) = execute (engine allow (answer true)) func "m.f" nil end none none none idle in
    (r ≡ ok 42) × (s.error_count ≡ 1) × (calls s.trace ≡ 1)
unfolding execute build_state get_policy_id ◌>>=◌ attempt execute_allowed log_decision log_outcome
    decision_entry outcome_entry validate_audit_entry safe_message
allowed = (refl, refl, refl)

approved :
    let (r, s) =
      execute (engine require_approval (answer true)) func "m.f" nil end none none none idle in
    (r ≡ ok 42) × (calls s.trace ≡ 1)
unfolding execute build_state get_policy_id ◌>>=◌ attempt execute_with_approval
    parse_approval_response execute_allowed log_decision log_outcome decision_entry outcome_entry
    validate_audit_entry safe_message
approved = (refl, refl)

-- The binding is that of another request.
replayed :
    let reply = mapping (
      fields
        (("approved", bool true) ∷ ("binding", dict (expected_binding "r0" "ph" "dh")) ∷ [])) in
    let (r, s) = execute (engine require_approval reply) func "m.f" nil end none none none idle in
    (r ≡ err (approval_denied "rule")) × (calls s.trace ≡ 0)
unfolding execute build_state get_policy_id ◌>>=◌ attempt execute_with_approval
    parse_approval_response execute_allowed log_decision log_outcome decision_entry outcome_entry
    validate_audit_entry safe_message
replayed = (refl, refl)

-- A binding that is no mapping, and nothing else, counts as an approval.
bare_binding :
    (parse_approval_response
      (λ v. "")
      (mapping (fields (("binding", str "x") ∷ [])))
      (expected_binding "r1" "ph" "dh")).approved
    ≡ true
unfolding parse_approval_response
bare_binding = refl

execute-IsGuarded_example :
    let p = execute (engine allow (answer true)) func "m.f" nil end none none none idle in
    IsGuarded p.0 [] p.1.trace
execute-IsGuarded_example =
    execute-IsGuarded (engine allow (answer true)) func "m.f" nil end none none none idle

execute-IsRefused_example :
    IsRefused idle (execute (engine deny (answer true)) func "m.f" nil end none none none idle)
execute-IsRefused_example =
    execute-IsRefused (engine deny (answer true)) func "m.f" nil end none none none idle
      λ ctx w. refl

abbrev state : ExecutionState
state = record {
  request_id = "r1";
  action = "m.f";
  safe_args = nil;
  safe_kwargs = end;
  ctx = record { action = "m.f"; args = nil; kwargs = end; metadata = end };
  policy_id = "p1";
  policy_version = null;
  policy_hash = "ph";
  decision_time = 7;
  decision_hash = "dh";
  agent_id = "bot";
  budget_cost = pos 1;
  budget_requested = false;
  approval_ttl_seconds = pos 300;
}

abbrev replay : Response
replay =
    mapping
      (fields (("approved", bool true) ∷ ("binding", dict (expected_binding "r0" "ph" "dh")) ∷ []))

abbrev rule : PolicyResult
rule = record { decision = require_approval; reason = "rule"; reason_code = none }

execute_with_approval-IsRefused_example :
    IsRefused idle
      (execute_with_approval (engine require_approval replay) func state rule none idle)
unfolding parse_approval_response
execute_with_approval-IsRefused_example =
    execute_with_approval-IsRefused (engine require_approval replay) func state rule none idle
      λ w. refl

parse-BindsTo_example :
    BindsTo (dict (expected_binding "r1" "ph" "dh")) "r1" "ph" "dh"
    × SaysYes (mapping (fields (("binding", dict (expected_binding "r1" "ph" "dh")) ∷ [])))
unfolding parse_approval_response
parse-BindsTo_example =
    parse-BindsTo (λ v. "")
      (mapping (fields (("binding", dict (expected_binding "r1" "ph" "dh")) ∷ []))) "r1" "ph" "dh"
      refl

append-RaisesExceptions : LogsRaiseExceptions (engine allow (answer true))
append-RaisesExceptions = record { append = λ v w. raises v w; log = λ e w. tt; hook = tt }
  where
    raises : (v : Value) (w : ℕ) → RaisesExceptions (append v w).0
    raises v zero = tt
    raises v (suc n) = refl

run_func-Tallies_example :
    Tallies
      (ok 42)
      (record idle { world = 1 })
      (run_func (engine allow (answer true)) func state "rule" none (record idle { world = 1 }))
run_func-Tallies_example =
    run_func-Tallies (engine allow (answer true)) append-RaisesExceptions func state "rule" none
      (record idle { world = 1 })

abbrev failed : AuditEntry
failed = record {
  timestamp = 7;
  request_id = "r1";
  event = "outcome";
  action = "m.f";
  decision = allow;
  reason = "rule";
  outcome = some "error";
  error_type = some "OSError";
  error = some "disk...";
  metadata = end;
}

stored_errors-Fit_example :
    Fits 7 (some (safe_message (exception "OSError" "disk full") true 7))
    × Fits 7 failed.error
    × Fits 200 failed.error
unfolding safe_message validate_audit_entry
stored_errors-Fit_example =
    stored_errors-Fit (exception "OSError" "disk full") true 7 failed failed (omega arith) refl refl

-- With a maximum of one character, the bound of the slice is negative and the text gets longer.
grows : safe_message (exception "OSError" "abcdef") true 1 ≡ "abcd..."
unfolding safe_message
grows = refl

asks_for_request_id :
    approval_result require_approval "rule" (some " ")
    ≡ err (exception "ValidationError" "request_id is required when decision is REQUIRE_APPROVAL")
unfolding approval_result is_blank
asks_for_request_id = refl

no_metadata :
    context "m.f" nil end null
    ≡ ok (record { action = "m.f"; args = nil; kwargs = end; metadata = end })
unfolding context is_blank
no_metadata = refl
