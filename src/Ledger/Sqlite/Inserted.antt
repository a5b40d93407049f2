-- ===== src/Ledger/Sqlite/Inserted.antt =====
-- The rows that inserting makes, beside the lines of a file that the same entries are appended to.
use mathlib.Core.List
use sudo_agent.Base.{
  ℕ, suc, ◌≡◌, refl, sym, ap, ◌∙◌, String, Bool, Option, none, some, List, [], ◌∷◌, ◌++◌, inl, inr,
}
use sudo_agent.Value.{str, dict, Fields}
use sudo_agent.Ledger.Jcs.{Result, ok, err, then_result}
use sudo_agent.Ledger.Chain.{
  ParsedEntry, Hashing, candidate, prepare_entry, append_after, append_all,
}
use sudo_agent.Ledger.Chain.Sealed.{sealed, hash-sealed}
use sudo_agent.Ledger.Chain.Appended.{line_of, Result-cases}
use sudo_agent.Ledger.Jsonl.{Bytes}
use sudo_agent.Ledger.Jsonl.Lines.{text_of_lines}
use sudo_agent.Ledger.Jsonl.Operations.{Loaded, Completion, returned, opened}
use sudo_agent.Ledger.Jsonl.Appended.{
  jcs_hashing, lines_of, hash_of, hashes_of, ReadHashes, run_appends, run_appends-Refines,
}
use sudo_agent.Ledger.Sqlite.{Row, read_last_entry_hash, append}

unfoldable pub run_inserts :
    Hashing → (Bytes → Loaded) → List Fields → List Row → List (Completion String) × List Row
unfolding append
run_inserts self loads [] rows = ([], rows)
run_inserts self loads (e ∷ entries) rows =
    let (r, rows') = append self loads e rows in
    let (rs, rows'') = run_inserts self loads entries rows' in (r ∷ rs, rows'')

abbrev pub row_texts : List Row → List String
row_texts [] = []
row_texts (r ∷ rows) = r.entry_json ∷ row_texts rows

row_texts-append :
    (rows : List Row) (r : Row) → row_texts (rows ++ r ∷ []) ≡ row_texts rows ++ r.entry_json ∷ []
row_texts-append [] r = refl
row_texts-append (s ∷ rows) r = ap (◌∷◌ s.entry_json) (row_texts-append rows r)

read_last-append :
    (rows : List Row) (r : Row) → read_last_entry_hash (rows ++ r ∷ []) ≡ some r.entry_hash
unfolding read_last_entry_hash
read_last-append [] r = refl
read_last-append (s ∷ []) r = refl
read_last-append (s ∷ t ∷ rows) r = read_last-append (t ∷ rows) r

module _ (self : Hashing) (loads : Bytes → Loaded) where
  Extends : List Row → List Fields → Result (List ParsedEntry) → Type 0
  Extends rows entries (err e) = Unit
  Extends rows entries (ok chain) =
      ((run_inserts self loads entries rows).0 ≡ hashes_of chain)
      × (row_texts (run_inserts self loads entries rows).1 ≡ row_texts rows ++ lines_of chain)

  first-Extends :
      (rows rows' : List Row) (e : Fields) (entries : List Fields) (h : String) (p : ParsedEntry)
      → append self loads e rows ≡ (returned h, rows')
      → hash_of p ≡ str h
      → row_texts rows' ≡ row_texts rows ++ line_of p ∷ []
      → (r : Result (List ParsedEntry)) → Extends rows' entries r
      → Extends rows (e ∷ entries) (then_result r λ rest. ok (p ∷ rest))
  unfolding Extends run_inserts
  first-Extends rows rows' e entries h p appended hashed longer (err x) later = tt
  first-Extends rows rows' e entries h p appended hashed longer (ok rest) (outcomes, text) =
      rw (appended, hashed)
        (
          ap (◌∷◌ (returned h)) outcomes,
          text
              ∙ ap (λ (l : List String). l ++ lines_of rest) longer
              ∙ List.append_assoc (row_texts rows) (line_of p ∷ []) (lines_of rest),
        )

  run_inserts-Extends :
      (rows : List Row) (entries : List Fields) (last : Option String) (idx : ℕ)
      → read_last_entry_hash rows ≡ last
      → Extends rows entries (append_all self last idx entries)
  unfolding Extends append_all append_after prepare_entry run_inserts append
  run_inserts-Extends rows [] last idx read = (refl, sym (List.append-nil (row_texts rows)))
  run_inserts-Extends rows (e ∷ entries) last idx read =
      elim (Result-cases (self.sha256_hex (dict (candidate last e)))) [
        | inr (x, k) ↦ rw k tt
        | inl (h, k) ↦
            elim (Result-cases (self.canonical_json (dict (sealed self.sign last h e)))) [
              | inr (x, l) ↦ rw (k, l) tt
              | inl (line, l) ↦
                  let row : Row = record {
                    entry_json = line;
                    entry_hash = h;
                    prev_entry_hash = last;
                  } in
                  rw (k, l)
                    (first-Extends rows (rows ++ row ∷ []) e entries h _ (rw (read, k, l) refl)
                      (hash-sealed self.sign last h e) (row_texts-append rows row)
                      (append_all self (some h) (suc idx) entries)
                      (run_inserts-Extends (rows ++ row ∷ []) entries (some h) (suc idx)
                        (read_last-append rows row)))
            ]
      ]

-- Where `json.loads` gives back the hashes of the entries that were written, and making the chain of
-- these entries succeeds: appended one after another to an empty table and to a file that does not
-- exist, they have the same hashes, and the rows hold the lines of the file.
pub ledgers_agree :
    (nfc sha256 : String → String) (sign : Option (String → String))
    (verify : Option (String → String → Bool)) (loads : Bytes → Loaded) (entries : List Fields)
    (chain : List ParsedEntry)
    → let self = jcs_hashing nfc sha256 sign verify in
      append_all self none 1 entries ≡ ok chain
      → ReadHashes loads chain
      → let (hashes, file) = run_appends self loads entries none in
        let (hashes', rows) = run_inserts self loads entries [] in
        (hashes' ≡ hashes) × (opened self loads file ≡ text_of_lines (row_texts rows))
unfolding Extends read_last_entry_hash
ledgers_agree nfc sha256 sign verify loads entries chain made read =
    let self = jcs_hashing nfc sha256 sign verify in
    let (outcomes, text) =
      run_appends-Refines nfc sha256 sign verify loads entries chain made read in
    let (outcomes', text') = rw made at (run_inserts-Extends self loads [] entries none 1 refl) in
    (outcomes' ∙ sym outcomes, text ∙ ap text_of_lines (sym text'))
