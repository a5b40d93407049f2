-- ===== src/Approvals/AsyncStore/Examples.antt =====
-- The comparison of the two stores at concrete data.
use sudo_agent.Base.{◌≡◌, refl, none, some, [], ◌∷◌}
use sudo_agent.Base.Dict.{lookup}
use sudo_agent.Approvals.Common.{
  approved, denied, pending, Error, ok, err, validate_nonempty_str, validate_state,
}
use sudo_agent.Approvals.Store
use sudo_agent.Approvals.Store.{Approval, Store as Table}
use sudo_agent.Approvals.AsyncStore.{resolve}
use sudo_agent.Approvals.AsyncStore.Comparison.{resolve_of_final}

abbrev granted : Approval
granted = record {
  policy_hash = "p";
  decision_hash = "d";
  state = approved;
  approver_id = some "alice";
  expires_at = some 300000010;
  created_at = 10;
  resolved_at = some 20;
}

abbrev waiting : Approval
waiting = record granted { state = pending; approver_id = none; resolved_at = none }

abbrev table : Table
table = record {
  default_ttl_seconds = 300;
  max_ttl_seconds = 3600;
  rows = ("r1", granted) ∷ ("r2", waiting) ∷ [];
}

-- The approval that Alice gave is denied afterwards.
resolve_of_final_example :
    ((e : Error) × (Store.resolve "r1" "denied" none none 30 table ≡ (err e, table)))
    × ((resolve "r1" "denied" none none 30 table).0 ≡ ok tt)
    × (lookup "r1" (resolve "r1" "denied" none none 30 table).1.rows
        ≡ some (record granted { state = denied; approver_id = none; resolved_at = some 30 }))
unfolding validate_nonempty_str validate_state
resolve_of_final_example =
    resolve_of_final "r1" "denied" none none 30 table granted denied refl refl refl refl refl
