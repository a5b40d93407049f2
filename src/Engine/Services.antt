-- ===== src/Engine/Services.antt =====
-- protocols.py and `AsyncSudoEngine.__init__`: what the engine is given, each service an operation
-- on a world that it may change, the events of a call in the order in which they happen, and the
-- sequencing of awaits.
use sudo_agent.Base.{ℕ, String, Bool, Option, List, ◌∷◌}
use sudo_agent.Base.Int.{ℤ}
use sudo_agent.Value.{Value, Items, Fields}
use sudo_agent.Engine.Common.{Exn, Result, ok, err, Context, PolicyResult, AuditEntry}

-- What a method of a service does to the world.
abbrev pub Service : Type 0 → Type 0 → Type 0
Service W A = W → Result A × W

-- A policy: `evaluate`, and the attributes that the engine reads, `none` where one is absent or is
-- no text (`version` may be any value); `source` is what `inspect.getsource` finds.
pub record Policy (W : Type 0) : Type 0 where
  pub evaluate : Context → Service W PolicyResult
  pub policy_id : Option String
  pub version : Value
  pub policy_hash : Option String
  pub class_module : String
  pub class_qualname : String
  pub source : Option String

-- What an approver can answer; of a mapping, the entries with a text for a key.
pub data Response : Type 0 where
  answer : Bool → Response
  mapping : Fields → Response
  malformed : Response

-- A budget manager, with its attributes `window_seconds` and `window` (in whole seconds).
pub record BudgetService (W : Type 0) : Type 0 where
  pub check : String → String → String → ℤ → Service W Unit
  pub commit : String → Service W Unit
  pub budget_key : Value
  pub window_seconds : Option ℕ
  pub window : Option ℕ

pub record ApprovalService (W : Type 0) : Type 0 where
  pub max_ttl_seconds : Option ℤ
  pub expire_expired : Service W Unit
  pub create_pending : String → String → String → ℤ → Service W Unit
  pub resolve : String → String → Option String → Service W Unit
  pub fetch : String → Service W (Option Fields)

-- `AsyncSudoEngine`, with the functions that it imports: `approve` is the approver under
-- `asyncio.wait_for` with the timeout in seconds, `clock` reads the time, in microseconds.
pub record Engine (W : Type 0) : Type 0 where
  pub policy : Policy W
  pub approve : Context → PolicyResult → String → ℤ → Service W Response
  pub append : Value → Service W Unit
  pub log : AuditEntry → Service W Unit
  pub budget_manager : Option (BudgetService W)
  pub approval_store : Option (ApprovalService W)
  pub agent_id : String
  pub on_error : Option (String → Exn → Service W Unit)
  pub include_error_messages : Bool
  pub max_error_length : ℕ
  pub uuid4 : W → String × W
  pub clock : W → ℕ
  pub format_timestamp : ℕ → String
  pub sha256_hex : Value → Result String
  pub redact_args : Items → Result Items
  pub redact_kwargs : Fields → Result Fields
  pub str_of : Value → String

-- What happened, as far as the order matters: what was written, that the guarded function was
-- called, and every other call of a service by its name.
pub data Event : Type 0 where
  appended : Value → Event
  append_failed : Event
  logged : AuditEntry → Event
  log_failed : Event
  called : Event
  service : String → Event

-- One run: the world, the events so far with the last one first, and `_error_count`.
pub record Run (W : Type 0) : Type 0 where
  pub world : W
  pub trace : List Event
  pub error_count : ℕ

abbrev pub Eff : Type 0 → Type 0 → Type 0
Eff W A = Run W → Result A × Run W

module _ {W : Type 0} where
  abbrev pub pure : {A : Type 0} → A → Eff W A
  pure a s = (ok a, s)

  abbrev pub raise : {A : Type 0} → Exn → Eff W A
  raise e s = (err e, s)

  abbrev pub lift : {A : Type 0} → Result A → Eff W A
  lift r s = (r, s)

  -- `await` of a service, which leaves the event `e`
  abbrev pub await : {A : Type 0} → Event → Service W A → Eff W A
  await e op s = let (r, w) = op s.world in (r, record s { world = w; trace = e ∷ s.trace })

  abbrev pub now : (W → ℕ) → Eff W ℕ
  now clock s = (ok (clock s.world), s)

abbrev pub continue : {W A B : Type 0} → Result A × Run W → (A → Eff W B) → Result B × Run W
continue (ok a, s) f = f a s
continue (err e, s) f = (err e, s)

infixl 5 ◌>>=◌ ◌>>◌
unfoldable pub ◌>>=◌ : {W A B : Type 0} → Eff W A → (A → Eff W B) → Eff W B
◌>>=◌ m f s = continue (m s) f

abbrev pub ◌>>◌ : {W B : Type 0} → Eff W Unit → Eff W B → Eff W B
m >> k = m >>= λ _. k

abbrev pub handled : {W A : Type 0} → Result A × Run W → (Exn → Eff W A) → Result A × Run W
handled (ok a, s) handler = (ok a, s)
handled (err e, s) handler = handler e s

-- `try: m except …: handler`; a handler raises again what its clauses do not name.
unfoldable pub attempt : {W A : Type 0} → Eff W A → (Exn → Eff W A) → Eff W A
attempt m handler s = handled (m s) handler
