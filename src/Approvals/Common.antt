-- ===== src/Approvals/Common.antt =====
-- approvals/common.py: the validators and the cap on expirations. Instants are in microseconds.
use Prim.Native.String.{◌++◌ as ◌<>◌}
use sudo_agent.Base.{ℕ, ◌+◌, ◌*◌, String, Bool, Option, none, some, ◌==◌, ltb, if◌then◌else◌}
use sudo_agent.Base.Text.{is_blank}

pub data State : Type 0 where
  pending approved denied expired failed : State

abbrev pub state_name : State → String
state_name pending = "pending"
state_name approved = "approved"
state_name denied = "denied"
state_name expired = "expired"
state_name failed = "failed"

abbrev pub is_pending : State → Bool
is_pending pending = Bool.true
is_pending _ = Bool.false

abbrev pub same_state : State → State → Bool
same_state a b = state_name a == state_name b

pub data Error : Type 0 where
  value_error runtime_error : String → Error

pub data Result (A : Type 0) : Type 0 where
  ok : A → Result A
  err : Error → Result A

unfoldable pub validate_nonempty_str : String → String → Result Unit
unfolding is_blank
validate_nonempty_str name value =
    if is_blank value then err (value_error (name <> " must be a non-empty string")) else ok tt

-- `validate_state`; a text in `ALLOWED_STATES` goes on as the state that it names.
unfoldable pub validate_state : String → Result State
validate_state s =
    if s == "pending"
    then ok pending
    else if s == "approved"
    then ok approved
    else if s == "denied"
    then ok denied
    else if s == "expired"
    then ok expired
    else if s == "failed"
    then ok failed
    else err
        (value_error "state must be one of ['approved', 'denied', 'expired', 'failed', 'pending']")

abbrev pub default_ttl : ℕ
default_ttl = 300

abbrev pub max_ttl : ℕ
max_ttl = 3600

abbrev pub seconds : ℕ → ℕ
seconds n = n * 1000000

-- `cap_expires_at`
unfoldable pub cap_expires_at : Option ℕ → ℕ → ℕ → ℕ → ℕ
cap_expires_at none now default_ttl_seconds max_ttl_seconds = now + seconds default_ttl_seconds
cap_expires_at (some t) now default_ttl_seconds max_ttl_seconds =
    if ltb (now + seconds max_ttl_seconds) t then now + seconds max_ttl_seconds else t
