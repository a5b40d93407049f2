-- ===== src/Cli/Keeping/Commands.antt =====
-- cli.py: which files the commands leave as they are.
use sudo_agent.Base.{
  ◌≡◌, refl, ◌∙◌, ap, String, Bool, true, false, Option, none, some, arith, eq_iff, ◌==◌,
  Bool-cases, inl, inr, ◌⊎◌, ◌||◌,
}
use sudo_agent.Base.Dict.{Dict, lookup, contains}
use sudo_agent.Ledger.Chain.{Hashing}
use sudo_agent.Ledger.Jsonl.{Bytes}
use sudo_agent.Ledger.Jsonl.Operations.{Loaded}
use sudo_agent.Cli.{Runtime}
use sudo_agent.Cli.Commands.{World, write_entries, cmd_export, every}
use sudo_agent.Cli.Selecting.{cmd_filter, cmd_search, write_filtered, write_matched, matches_search}
use sudo_agent.Cli.Receipts.{look_up, target_of, cmd_receipt}
use sudo_agent.Cli.Main.{
  PublicKey, key, no_key, KeyPair, pair, no_pair, Arguments, verify_args, export_args, filter_args,
  search_args, keygen_args, receipt_args, verify_with, cmd_verify, write_keys, cmd_keygen, main,
}
use sudo_agent.Cli.Keeping.{
  Keeps, IsOther, insert_other, write_entries-Keeps, if_found-Keeps, bounded-Keeps, look_up-Keeps,
  report_failure-Keeps, report_verdict-Keeps,
}

write_keys-Keeps :
    (k private_path public_path : String) (keys : KeyPair)
    → (private_path == k) ≡ false
    → (public_path == k) ≡ false
    → Keeps k (write_keys private_path public_path keys)
write_keys-Keeps k private_path public_path (no_pair b m) other other' w = refl
write_keys-Keeps k private_path public_path (pair a b) other other' w =
    insert_other k public_path b _ other' ∙ insert_other k private_path a w.files other

-- What a command may write to: its output, or its two key files, which without `--overwrite` are not
-- there yet.
abbrev pub MayWrite : Arguments → World → String → Type 0
MayWrite (verify_args ledger json_output public_key) w k = ⊥
MayWrite (export_args ledger format output) w k = output ≡ some k
MayWrite (filter_args ledger request_id action agent_id start stop format output) w k =
    output ≡ some k
MayWrite (search_args ledger query start stop format output) w k = output ≡ some k
MayWrite (receipt_args ledger request_id decision_hash output) w k = output ≡ some k
MayWrite (keygen_args private_path public_path overwrite) w k =
    ((private_path ≡ k) ⊎ (public_path ≡ k)) × ((overwrite ≡ true) ⊎ (lookup k w.files ≡ none))

other_path : (k path : String) → ¬ (path ≡ k) → (path == k) ≡ false
other_path k path h = ground (arith, eq_iff path k, h)

not_output-IsOther : (k : String) (output : Option String) → ¬ (output ≡ some k) → IsOther output k
not_output-IsOther k none h = tt
not_output-IsOther k (some path) h = other_path k path (λ same. h (ap some same))

absent :
    (a b k : String) (files : Dict String)
    → (contains a files || contains b files) ≡ false
    → (a ≡ k) ⊎ (b ≡ k)
    → lookup k files ≡ none
absent a b k files no_file (inl same) = ground (arith, ap (λ x. lookup x files) same)
absent a b k files no_file (inr same) = ground (arith, ap (λ x. lookup x files) same)

module _ (r : Runtime) (self : Hashing) (loads : Bytes → Loaded)
    (load_public_key : Option String → PublicKey) (generate_keypair : KeyPair) (k : String) where
  verify_with-Keeps :
      (ledger : String) (json_output : Bool) (p : PublicKey)
      → Keeps k (verify_with r self loads load_public_key generate_keypair ledger json_output p)
  verify_with-Keeps ledger json_output (no_key b m) w = report_failure-Keeps r k json_output _ w
  verify_with-Keeps ledger json_output (key p) w = report_verdict-Keeps r k json_output _ w

  cmd_keygen-Keeps :
      (a b : String) (overwrite : Bool) (w : World)
      → ¬ MayWrite (keygen_args a b overwrite) w k
      → lookup k (cmd_keygen r self loads load_public_key generate_keypair a b overwrite w).1.files
        ≡ lookup k w.files
  unfolding cmd_keygen
  cmd_keygen-Keeps a b true w h =
      write_keys-Keeps k a b generate_keypair (other_path k a (λ same. h (inl same, inl refl)))
        (other_path k b (λ same. h (inr same, inl refl))) w
  cmd_keygen-Keeps a b false w h = elim (Bool-cases (contains a w.files || contains b w.files)) [
    | inl there ↦ rw there refl
    | inr no_file ↦
        let safe = absent a b k w.files no_file in
        rw no_file (
          write_keys-Keeps k a b generate_keypair
            (other_path k a (λ same. h (inl same, inr (safe (inl same)))))
            (other_path k b (λ same. h (inr same, inr (safe (inr same))))) w)
  ]

  -- A command leaves every file as it is that is not its output. Key generation leaves every other file
  -- than the two key files as it is, and without `--overwrite` also each of these two that was there.
  pub main-Keeps :
      (args : Arguments) (w : World)
      → ¬ MayWrite args w k
      → lookup k (main r self loads load_public_key generate_keypair args w).1.files
        ≡ lookup k w.files
  unfolding main cmd_verify cmd_export cmd_filter cmd_search cmd_receipt
  main-Keeps (verify_args ledger json_output none) w h = report_verdict-Keeps r k json_output _ w
  main-Keeps (verify_args ledger json_output (some path)) w h =
      verify_with-Keeps ledger json_output _ w
  main-Keeps (export_args ledger format output) w h =
      if_found-Keeps r k ledger (write_entries r "export" ledger (every r) format output)
        (write_entries-Keeps r k "export" ledger (every r) format output
          (not_output-IsOther k output h))
        w
  main-Keeps (filter_args ledger request_id action agent_id start stop format output) w h =
      bounded-Keeps r k ledger start stop
        (write_filtered r ledger request_id action agent_id format output)
        (λ a b.
          write_entries-Keeps r k "filter" ledger _ format output (not_output-IsOther k output h))
        w
  main-Keeps (search_args ledger query start stop format output) w h =
      bounded-Keeps r k ledger start stop (write_matched r ledger query format output)
        (λ a b.
          write_entries-Keeps r k "search" ledger (matches_search r query a b) format output
            (not_output-IsOther k output h))
        w
  main-Keeps (receipt_args ledger request_id decision_hash output) w h =
      if_found-Keeps r k ledger (look_up r ledger output (target_of request_id decision_hash))
        (look_up-Keeps r k ledger output (target_of request_id decision_hash)
          (not_output-IsOther k output h))
        w
  main-Keeps (keygen_args private_path public_path overwrite) w h =
      cmd_keygen-Keeps private_path public_path overwrite w h
