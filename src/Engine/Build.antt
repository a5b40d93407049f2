-- ===== src/Engine/Build.antt =====
-- async_engine.py, `ExecutionState` and what `_build_state` computes.
use Prim.Native.String.{◌++◌ as ◌<>◌}
use sudo_agent.Base.{ℕ, String, Bool, true, Option, none, some, [], ◌∷◌, if◌then◌else◌, is_some}
use sudo_agent.Base.Int.{ℤ, pos}
use sudo_agent.Base.Text.{is_blank}
use sudo_agent.Value.{Value, null, bool, str, list, dict, Items, Fields, fields}
use sudo_agent.Engine.Common.{Result, ok, err, Context}
use sudo_agent.Engine.Services.{Policy, Engine, Eff, pure, lift, now, ◌>>=◌}

pub record ExecutionState : Type 0 where
  pub request_id : String
  pub action : String
  pub safe_args : Items
  pub safe_kwargs : Fields
  pub ctx : Context
  pub policy_id : String
  pub policy_version : Value
  pub policy_hash : String
  pub decision_time : ℕ
  pub decision_hash : String
  pub agent_id : String
  pub budget_cost : ℤ
  pub budget_requested : Bool
  pub approval_ttl_seconds : ℤ

-- The text, if it is one that is not blank.
abbrev pub filled : Option String → Option String
unfolding is_blank
filled none = none
filled (some s) = if is_blank s then none else some s

abbrev pub else_text : Option String → String → String
else_text none s = s
else_text (some t) s = t

-- `_get_policy_id`
unfoldable pub get_policy_id : {W : Type 0} → Policy W → String
get_policy_id p = else_text (filled p.policy_id) (p.class_module <> "." <> p.class_qualname)

-- `budget_cost if budget_cost is not None else 1`, and the same for the TTL
abbrev pub or_default : Option ℤ → ℤ → ℤ
or_default none d = d
or_default (some c) d = c

module _ {W : Type 0} (self : Engine W) where
  -- `_policy_source_hash`
  abbrev pub policy_source_hash : Option String → Result Value
  policy_source_hash none = ok null
  policy_source_hash (some source) =
      hash_as_value (self.sha256_hex (dict (fields (("policy_source", str source) ∷ []))))
    where
      hash_as_value : Result String → Result Value
      hash_as_value (ok h) = ok (str h)
      hash_as_value (err e) = err e

  -- The policy's own hash, or the hash of what identifies it.
  abbrev pub policy_hash_of : Policy W → Option String → Eff W String
  policy_hash_of p (some h) = pure h
  policy_hash_of p none = do
    source_hash ← lift (policy_source_hash p.source)
    lift (
        self.sha256_hex (
          dict (
            fields (
              ("policy_id", str (get_policy_id p))
              ∷ ("policy_version", p.version)
              ∷ ("policy_class", str p.class_qualname)
              ∷ ("policy_source_hash", source_hash)
              ∷ []))))

  -- What `decision_hash` is the hash of.
  abbrev pub decision_payload : String → String → String → String → Items → Fields → Value
  decision_payload request_id decision_at policy_hash action safe_args safe_kwargs = dict (
      fields (
        ("version", str "2.0")
        ∷ ("request_id", str request_id)
        ∷ ("decision_at", str decision_at)
        ∷ ("policy_hash", str policy_hash)
        ∷ ("intent", str action)
        ∷ ("resource", dict (fields (("type", str "function") ∷ ("name", str action) ∷ [])))
        ∷ (
          "parameters",
          dict (fields (("args", list safe_args) ∷ ("kwargs", dict safe_kwargs) ∷ [])),
        )
        ∷ (
          "actor",
          dict (fields (("principal", str self.agent_id) ∷ ("source", str "python") ∷ [])),
        )
        ∷ []))

  abbrev pub request_id_of : Eff W String
  request_id_of s = let (r, w) = self.uuid4 s.world in (ok r, record s { world = w })

  -- `_build_state`; `action` is the function's module and qualified name.
  unfoldable pub build_state :
      String → Items → Fields → Policy W → Option ℤ → Option ℤ → Eff W ExecutionState
  build_state action args kwargs p budget_cost approval_ttl_seconds = do
    request_id ← request_id_of
    safe_args ← lift (self.redact_args args)
    safe_kwargs ← lift (self.redact_kwargs kwargs)
    policy_hash ← policy_hash_of p (filled p.policy_hash)
    decision_time ← now self.clock
    decision_hash ← lift (
        self.sha256_hex (
          decision_payload request_id (self.format_timestamp decision_time) policy_hash action
            safe_args safe_kwargs))
    pure (record {
      request_id = request_id;
      action = action;
      safe_args = safe_args;
      safe_kwargs = safe_kwargs;
      ctx = record {
        action = action;
        args = safe_args;
        kwargs = safe_kwargs;
        metadata = fields (("agent_id", str self.agent_id) ∷ ("_redacted", bool true) ∷ []);
      };
      policy_id = get_policy_id p;
      policy_version = p.version;
      policy_hash = policy_hash;
      decision_time = decision_time;
      decision_hash = decision_hash;
      agent_id = self.agent_id;
      budget_cost = or_default budget_cost (pos 1);
      budget_requested = is_some budget_cost;
      approval_ttl_seconds = or_default approval_ttl_seconds (pos 300);
    })
