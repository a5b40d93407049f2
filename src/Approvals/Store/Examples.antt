-- ===== src/Approvals/Store/Examples.antt =====
-- Runs of the approval store, and its theorems at concrete data.
use sudo_agent.Base.{◌≡◌, refl, none, some, List, [], ◌∷◌, arith}
use sudo_agent.Base.Dict.{lookup}
use sudo_agent.Approvals.Common.{pending, approved, ok, err, value_error}
use sudo_agent.Approvals.Store.{
  Approval, Store, expire, expire_expired, create_pending, resolve, fetch,
}
use sudo_agent.Approvals.Store.Lifecycle.{
  Call, creates, resolves, fetches, expires, run, Evolves, run-Evolves,
}
use sudo_agent.Base.Text.{is_blank}
use sudo_agent.Approvals.Store.Gap.{fetch_around, fetch_around_resolution}
use sudo_agent.Approvals.Store.Deadlines.{IsSettled, sweep_settles}
use sudo_agent.Approvals.Store.Sweeping.{SweepSpec, expire_expired-SweepSpec}
use sudo_agent.Approvals.Store.Outcomes.{ResolveSpec, resolve-Spec, FetchSpec, fetch-Spec}

abbrev fresh_store : Store
fresh_store = record { default_ttl_seconds = 300; max_ttl_seconds = 3600; rows = [] }

abbrev waiting : Approval
waiting = record {
  policy_hash = "p";
  decision_hash = "d";
  state = pending;
  approver_id = none;
  expires_at = some 300000010;
  created_at = 10;
  resolved_at = none;
}

abbrev granted : Approval
granted = record waiting { state = approved; approver_id = some "alice"; resolved_at = some 20 }

abbrev one_waiting : Store
one_waiting = record fresh_store { rows = ("r1", waiting) ∷ [] }

abbrev one_granted : Store
one_granted = record fresh_store { rows = ("r1", granted) ∷ [] }

create_first : create_pending "r1" "p" "d" none 10 fresh_store ≡ (ok tt, one_waiting)
unfolding create_pending
create_first = refl

grant_waiting : resolve "r1" "approved" (some "alice") none 20 one_waiting ≡ (ok tt, one_granted)
unfolding resolve
grant_waiting = refl

deny_granted :
    resolve "r1" "denied" none none 30 one_granted
    ≡ (err (value_error "invalid approval state transition: approved -> denied"), one_granted)
unfolding resolve
deny_granted = refl

other_policy :
    create_pending "r1" "q" "d" none 20 one_waiting
    ≡ (err (value_error "policy_hash/decision_hash mismatch for existing request_id"), one_waiting)
unfolding create_pending
other_policy = refl

abbrev calls : List Call
calls =
    creates "r1" "p" "d" none 10
    ∷ creates "r2" "p" "e" (some 9000000000) 11
    ∷ resolves "r1" "denied" none none 30
    ∷ fetches "r2" 40 41
    ∷ expires 50
    ∷ []

run-Evolves_example : Evolves (some granted) (lookup "r1" (run calls one_granted).rows)
run-Evolves_example = run-Evolves calls "r1" one_granted

sweep_settles_example :
    IsSettled (lookup "r2" (expire_expired 3600000051 (run calls fresh_store)).1.rows)
sweep_settles_example =
    sweep_settles 50 3600000051 calls fresh_store refl (omega arith) (omega arith) (omega arith)
      "r2"

expire_expired-SweepSpec_example :
    SweepSpec 300000011 one_waiting (expire_expired 300000011 one_waiting)
expire_expired-SweepSpec_example = expire_expired-SweepSpec 300000011 one_waiting

resolve-Spec_example :
    ResolveSpec "r1" "approved" one_waiting (resolve "r1" "approved" none none 20 one_waiting)
resolve-Spec_example = resolve-Spec "r1" "approved" none none 20 one_waiting

fetch-Spec_example :
    FetchSpec "r1" 300000011 300000012 one_waiting (fetch "r1" 300000011 300000012 one_waiting)
fetch-Spec_example = fetch-Spec "r1" 300000011 300000012 one_waiting

abbrev late_grant : List Call
late_grant = resolves "r1" "approved" (some "alice") none 300000012 ∷ []

abbrev granted_late : Approval
granted_late = record waiting {
  state = approved;
  approver_id = some "alice";
  resolved_at = some 300000012;
}

fetch_around_resolution_example :
    let (r, s') = fetch_around "r1" 300000011 300000013 late_grant one_waiting in
    (r ≡ ok (some (expire 300000013 waiting)))
    × (lookup "r1" s'.rows ≡ some (expire 300000013 granted_late))
    × ¬ Evolves (some granted_late) (lookup "r1" s'.rows)
unfolding is_blank resolve
fetch_around_resolution_example =
    fetch_around_resolution "r1" 300000011 300000013 late_grant one_waiting waiting granted_late
      refl refl refl refl refl (ground arith)
