-- ===== src/Cli/Main.antt =====
-- cli.py: `_cmd_verify`, `_cmd_keygen` and `main`, from the arguments that `argparse` has read.
use Prim.Native.String.{◌++◌ as ◌<>◌}
use sudo_agent.Base.{
  String, Bool, true, false, Option, none, some, [], ◌∷◌, ◌&&◌, ◌||◌, not, if◌then◌else◌,
}
use sudo_agent.Base.Dict.{lookup, insert, contains}
use sudo_agent.Base.Text.{contains_text}
use sudo_agent.Value.{str, dict, fields}
use sudo_agent.Ledger.Chain.{Hashing}
use sudo_agent.Ledger.Jsonl.{Bytes}
use sudo_agent.Ledger.Jsonl.Operations.{
  Loaded, Raised, ledger_write_error, ledger_verification_error, canonicalization_error, Completion,
  returned, raised, verify,
}
use sudo_agent.Cli.{Runtime}
use sudo_agent.Cli.Commands.{code, World, Command, complain, Format, cmd_export}
use sudo_agent.Cli.Selecting.{cmd_filter, cmd_search}
use sudo_agent.Cli.Receipts.{cmd_receipt}

-- What `load_public_key` makes of a key file's text, and what `generate_keypair` returns; where they
-- raise, whether it is a `RuntimeError`, and the message.
pub data PublicKey : Type 0 where
  key : (String → String → Bool) → PublicKey
  no_key : Bool → String → PublicKey

pub data KeyPair : Type 0 where
  pair : String → String → KeyPair
  no_pair : Bool → String → KeyPair

pub data Arguments : Type 0 where
  verify_args : String → Bool → Option String → Arguments
  export_args : String → Format → Option String → Arguments
  filter_args :
      String
      → Option String
      → Option String
      → Option String
      → Option String
      → Option String
      → Format
      → Option String
      → Arguments
  search_args : String → String → Option String → Option String → Format → Option String → Arguments
  keygen_args : String → String → Bool → Arguments
  receipt_args : String → Option String → Option String → Option String → Arguments

-- `_format_optional_dependency_error`, of a `RuntimeError` or another exception
abbrev pub format_error : Bool → String → String
format_error is_runtime_error message =
    if is_runtime_error && contains_text message "cryptography"
    then message <> " (install \"sudoagent[crypto]\")"
    else message

-- A ledger error is a `RuntimeError`; a canonicalization error is none.
abbrev pub message_of : Raised → String
message_of (ledger_write_error m) = format_error true m
message_of (ledger_verification_error m) = format_error true m
message_of (canonicalization_error m) = format_error false m

abbrev pub print : String → World → World
print text w = record w { out = w.out <> text <> "\n" }

abbrev pub write_keys : String → String → KeyPair → Command
write_keys private_path public_path (pair private_key public_key) w = (
  code 0,
  record w { files = insert public_path public_key (insert private_path private_key w.files) },
)
write_keys private_path public_path (no_pair is_runtime_error m) w =
    complain (format_error is_runtime_error m) 1 w

module _ (r : Runtime) where
  abbrev pub report_failure : Bool → String → Command
  report_failure true message w = (
    code 1,
    print (r.dumps (dict (fields (("status", str "failed") ∷ ("error", str message) ∷ [])))) w,
  )
  report_failure false message w = complain ("verify failed: " <> message) 1 w

  abbrev pub report_verdict : Bool → Completion Unit → Command
  report_verdict json_output (raised e) w = report_failure json_output (message_of e) w
  report_verdict true (returned u) w =
      (code 0, print (r.dumps (dict (fields (("status", str "ok") ∷ [])))) w)
  report_verdict false (returned u) w = (code 0, print "verification ok" w)

-- The parameters: what the command line calls of the standard library, the ledger's hashing without
-- keys, its `json.loads`, `load_public_key` of what stands at a path, and `generate_keypair`.
module _ (r : Runtime) (self : Hashing) (loads : Bytes → Loaded)
    (load_public_key : Option String → PublicKey) (generate_keypair : KeyPair) where
  abbrev pub with_key : Option (String → String → Bool) → Hashing
  with_key k = record self { verify = k }

  abbrev pub verify_with : String → Bool → PublicKey → Command
  verify_with ledger json_output (no_key is_runtime_error m) w =
      report_failure r json_output (format_error is_runtime_error m) w
  verify_with ledger json_output (key k) w =
      report_verdict r json_output (verify (with_key (some k)) loads (lookup ledger w.files)) w

  unfoldable pub cmd_verify : String → Bool → Option String → Command
  cmd_verify ledger json_output none w =
      report_verdict r json_output (verify (with_key none) loads (lookup ledger w.files)) w
  cmd_verify ledger json_output (some path) w =
      verify_with ledger json_output (load_public_key (lookup path w.files)) w

  unfoldable pub cmd_keygen : String → String → Bool → Command
  cmd_keygen private_path public_path overwrite w =
      if not overwrite && (contains private_path w.files || contains public_path w.files)
      then complain "key file already exists" 1 w
      else write_keys private_path public_path generate_keypair w

  unfoldable pub main : Arguments → Command
  unfolding cmd_verify cmd_export cmd_filter cmd_search cmd_keygen cmd_receipt
  main (verify_args ledger json_output public_key) = cmd_verify ledger json_output public_key
  main (export_args ledger format output) = cmd_export r ledger format output
  main (filter_args ledger request_id action agent_id start stop format output) =
      cmd_filter r ledger request_id action agent_id start stop format output
  main (search_args ledger query start stop format output) =
      cmd_search r ledger query start stop format output
  main (keygen_args private_path public_path overwrite) =
      cmd_keygen private_path public_path overwrite
  main (receipt_args ledger request_id decision_hash output) =
      cmd_receipt r ledger request_id decision_hash output
