-- ===== src/Cli/Verifying.antt =====
-- cli.py, `_cmd_verify`: which exit code stands for which verdict.
use sudo_agent.Base.{◌≡◌, refl, String, Bool, true, false, Option, none, some, ◌⊎◌, inl, inr}
use sudo_agent.Base.Dict.{Dict, lookup}
use sudo_agent.Ledger.Chain.{Hashing}
use sudo_agent.Ledger.Jsonl.{Bytes}
use sudo_agent.Ledger.Jsonl.Operations.{Loaded, Completion, returned, raised, verify}
use sudo_agent.Cli.{Runtime}
use sudo_agent.Cli.Commands.{Exit, code, World}
use sudo_agent.Cli.Main.{
  PublicKey, key, no_key, KeyPair, report_failure, report_verdict, verify_with, cmd_verify,
}

abbrev pub ExitsBy : Exit → Type 0 → Type 0
ExitsBy x Good = ((x ≡ code 0) × Good) ⊎ ((x ≡ code 1) × ¬ Good)

module _ (self : Hashing) (loads : Bytes → Loaded)
    (load_public_key : Option String → PublicKey) where
  -- The ledger's own check passes with the key, or without one.
  abbrev pub Verifies : Option (String → String → Bool) → Option String → Type 0
  Verifies k file = verify (record self { verify = k }) loads file ≡ returned tt

  abbrev pub VerifiesBy : PublicKey → Option String → Type 0
  VerifiesBy (key k) file = Verifies (some k) file
  VerifiesBy (no_key b m) file = ⊥

  -- A key that is asked for can be loaded, and the check passes with it.
  abbrev pub IsVerified : Option String → String → Dict String → Type 0
  IsVerified none ledger files = Verifies none (lookup ledger files)
  IsVerified (some path) ledger files =
      VerifiesBy (load_public_key (lookup path files)) (lookup ledger files)

report_failure_code :
    (r : Runtime) (json_output : Bool) (m : String) (w : World)
    → (report_failure r json_output m w).0 ≡ code 1
report_failure_code r true m w = refl
report_failure_code r false m w = refl

report_verdict-ExitsBy :
    (r : Runtime) (json_output : Bool) (v : Completion Unit) (w : World)
    → ExitsBy (report_verdict r json_output v w).0 (v ≡ returned tt)
report_verdict-ExitsBy r json_output (raised e) w =
    inr (report_failure_code r json_output _ w, λ h. cc h)
report_verdict-ExitsBy r true (returned tt) w = inl (refl, refl)
report_verdict-ExitsBy r false (returned tt) w = inl (refl, refl)

module _ (r : Runtime) (self : Hashing) (loads : Bytes → Loaded)
    (load_public_key : Option String → PublicKey) (generate_keypair : KeyPair) (ledger : String)
    (json_output : Bool) (w : World) where
  verify_with-ExitsBy :
      (p : PublicKey)
      → ExitsBy
          (verify_with r self loads load_public_key generate_keypair ledger json_output p w).0
          (VerifiesBy self loads load_public_key p (lookup ledger w.files))
  verify_with-ExitsBy (key k) = report_verdict-ExitsBy r json_output _ w
  verify_with-ExitsBy (no_key b m) = inr (report_failure_code r json_output _ w, λ h. h)

  -- Verification ends with the exit code 0 where the ledger's own check passes, with the public key
  -- that is given, if one is, and that key can be loaded; otherwise it ends with 1, and it never ends
  -- in another way.
  pub cmd_verify-ExitsBy :
      (public_key : Option String)
      → ExitsBy
          (cmd_verify r self loads load_public_key generate_keypair ledger json_output public_key
            w).0
          (IsVerified self loads load_public_key public_key ledger w.files)
  unfolding cmd_verify
  cmd_verify-ExitsBy none = report_verdict-ExitsBy r json_output _ w
  cmd_verify-ExitsBy (some path) = verify_with-ExitsBy (load_public_key (lookup path w.files))
