-- ===== src/Ledger/Sqlite/Verdicts.antt =====
-- The check of a table and the check of a file with the same lines pass or fail together.
use Prim.Native.String.{[] as empty, ◌∷◌ as ◌▸◌}
use sudo_agent.Base.{
  ℕ, suc, ◌≡◌, refl, sym, ap, ◌∙◌, String, true, Option, none, some, List, [], ◌∷◌, arith, eq_iff,
  ◌==◌, inl, inr, Bool-cases,
}
use sudo_agent.Value.{
  Value, null, bool, int, float, decimal, str, bytes, list, tuple, dict, mixed_dict, other, Fields,
  fields_of, opt_str,
}
use sudo_agent.Value.Dict.{get}
use sudo_agent.Ledger.Jcs.{Result, ok, err}
use sudo_agent.Ledger.Chain.{
  ParsedEntry, Verifier, Hashing, ◌>>=◌, check_row, validate_object, validate_entry,
}
use sudo_agent.Ledger.Chain.Appended.{Result-cases}
use sudo_agent.Ledger.Jsonl.{Bytes, encode}
use sudo_agent.Ledger.Jsonl.Lines.{text_of_lines, AreLines}
use sudo_agent.Ledger.Jsonl.Operations.{
  Loaded, value, decode_error, Completion, returned, raised, opened, verify_text, verify_lines,
  raw_lines,
}
use sudo_agent.Ledger.Jsonl.Operations
use sudo_agent.Ledger.Jsonl.Reading.{verify_each, verify_lines-eq}
use sudo_agent.Ledger.Sqlite.{Row, parse_object, parse_loaded, parse_text, verify_rows}
use sudo_agent.Ledger.Sqlite.Inserted.{row_texts}

-- Whether a check passes, and with which verifier
abbrev pub accepted : Result Verifier → Option Verifier
accepted (ok v) = some v
accepted (err e) = none

-- The columns hold what the entry's text reads as.
abbrev pub ColumnsHold : (Bytes → Loaded) → Row → Type 0
ColumnsHold loads r =
    (e : Fields)
    → loads (encode r.entry_json) ≡ value (dict e)
    → (get "entry_hash" e ≡ str r.entry_hash)
      × (get "prev_entry_hash" e ≡ opt_str r.prev_entry_hash)

abbrev pub AllColumnsHold : (Bytes → Loaded) → List Row → Type 0
AllColumnsHold loads [] = Unit
AllColumnsHold loads (r ∷ rows) = ColumnsHold loads r × AllColumnsHold loads rows

eq_self : (s : String) → (s == s) ≡ true
eq_self s = ground (arith, eq_iff s s)

check_row-prev :
    (o : Option String) (v : Value) (message : String) (idx : ℕ)
    → v ≡ opt_str o
    → check_row o v message idx ≡ ok tt
check_row-prev none v message idx h = refl
check_row-prev (some t) v message idx h = rw h (ground (arith, eq_iff t t))

-- A row's entry, with the columns or without
abbrev parsed : ℕ → Row → Fields → Option String → Option String → ParsedEntry
parsed n r e hash prev = record {
  entry = dict e;
  raw = some r.entry_json;
  index = n;
  row_entry_hash = hash;
  row_prev_hash = prev;
}

module _ (self : Hashing) (loads : Bytes → Loaded) where
  -- The two parses of an object differ in the columns only, and the check does not see it.
  validate_columns :
      (v : Verifier) (n : ℕ) (r : Row) (e : Fields)
      → get "entry_hash" e ≡ str r.entry_hash
      → get "prev_entry_hash" e ≡ opt_str r.prev_entry_hash
      → validate_object self v (parsed n r e (some r.entry_hash) r.prev_entry_hash) e
        ≡ validate_object self v (parsed n r e none none) e
  validate_columns v n r e hashed prev =
      rw
        (
          hashed,
          eq_self r.entry_hash,
          check_row-prev r.prev_entry_hash (get "prev_entry_hash" e)
              "prev_entry_hash column mismatch at entry " n prev,
        )
        refl

  follow :
      (r s : Result Verifier) (f g : Verifier → Result Verifier)
      → r ≡ s
      → ((v : Verifier) → accepted (f v) ≡ accepted (g v))
      → accepted (r >>= f) ≡ accepted (s >>= g)
  follow r (ok v) f g e same = rw e (same v)
  follow r (err x) f g e same = rw e refl

  both_parsed :
      (v : Verifier) (x y : Result ParsedEntry) (p q : ParsedEntry)
      (f g : Verifier → Result Verifier)
      → x ≡ ok p
      → y ≡ ok q
      → validate_entry self v p ≡ validate_entry self v q
      → ((v' : Verifier) → accepted (f v') ≡ accepted (g v'))
      → accepted (x >>= λ p. validate_entry self v p >>= f)
        ≡ accepted (y >>= λ p. validate_entry self v p >>= g)
  both_parsed v x y p q f g ex ey valid same =
      rw (ex, ey) (follow (validate_entry self v p) (validate_entry self v q) f g valid same)

  object_verdict :
      (v : Verifier) (n : ℕ) (r : Row) (o : Option Fields) (f g : Verifier → Result Verifier)
      → ((e : Fields)
          → o ≡ some e
          → (get "entry_hash" e ≡ str r.entry_hash)
            × (get "prev_entry_hash" e ≡ opt_str r.prev_entry_hash))
      → ((v' : Verifier) → accepted (f v') ≡ accepted (g v'))
      → accepted (parse_object self loads n r o >>= λ p. validate_entry self v p >>= f)
        ≡ accepted (
            Operations.parse_object self loads n r.entry_json o >>= λ p.
            validate_entry self v p >>= g)
  object_verdict v n r none f g columns same = refl
  object_verdict v n r (some e) f g columns same =
      elim (Result-cases (self.canonical_json (dict e))) [
        | inr (x, k) ↦ rw k refl
        | inl (text, k) ↦ elim (Bool-cases (text == r.entry_json)) [
          | inr differs ↦ rw (k, differs) refl
          | inl equal ↦
              both_parsed v _ _ (parsed n r e (some r.entry_hash) r.prev_entry_hash)
                (parsed n r e none none) f g (rw (k, equal) refl) (rw (k, equal) refl)
                (validate_columns v n r e (columns e refl).0 (columns e refl).1) same
        ]
      ]

  loaded_verdict :
      (v : Verifier) (n : ℕ) (r : Row) (l : Loaded) (f g : Verifier → Result Verifier)
      → ((e : Fields)
          → l ≡ value (dict e)
          → (get "entry_hash" e ≡ str r.entry_hash)
            × (get "prev_entry_hash" e ≡ opt_str r.prev_entry_hash))
      → ((v' : Verifier) → accepted (f v') ≡ accepted (g v'))
      → accepted (parse_loaded self loads n r l >>= λ p. validate_entry self v p >>= f)
        ≡ accepted (
            Operations.parse_loaded self loads n r.entry_json l >>= λ p.
            validate_entry self v p >>= g)
  loaded_verdict v n r (decode_error m) f g columns same = refl
  loaded_verdict v n r (value w) f g columns same =
      object_verdict v n r (fields_of w) f g (λ e h. columns e (ap value (dict_of w e h))) same
    where
      dict_of : (w : Value) (e : Fields) → fields_of w ≡ some e → w ≡ dict e
      dict_of (dict d) e h = ap dict (cc h)
      dict_of null e h = absurd (cc h)
      dict_of (bool b) e h = absurd (cc h)
      dict_of (int i) e h = absurd (cc h)
      dict_of (float s) e h = absurd (cc h)
      dict_of (decimal x) e h = absurd (cc h)
      dict_of (str s) e h = absurd (cc h)
      dict_of (bytes k) e h = absurd (cc h)
      dict_of (list xs) e h = absurd (cc h)
      dict_of (tuple xs) e h = absurd (cc h)
      dict_of mixed_dict e h = absurd (cc h)
      dict_of (other s b) e h = absurd (cc h)

  text_verdict :
      (v : Verifier) (n : ℕ) (r : Row) (t : String) (f g : Verifier → Result Verifier)
      → r.entry_json ≡ t
      → ColumnsHold loads r
      → ((v' : Verifier) → accepted (f v') ≡ accepted (g v'))
      → accepted (parse_text self loads n r t >>= λ p. validate_entry self v p >>= f)
        ≡ accepted (Operations.parse_line self loads n t >>= λ p. validate_entry self v p >>= g)
  text_verdict v n r empty f g e columns same = refl
  text_verdict v n r (c ▸ s) f g e columns same =
      rw (← e) (loaded_verdict v n r (loads (encode r.entry_json)) f g columns same)

  rows_verdict :
      (v : Verifier) (n : ℕ) (rows : List Row)
      → AllColumnsHold loads rows
      → accepted (verify_rows self loads v n rows)
        ≡ accepted (verify_each self loads v n (row_texts rows))
  unfolding verify_rows verify_each
  rows_verdict v n [] h = refl
  rows_verdict v n (r ∷ rows) (h, hs) =
      text_verdict v n r r.entry_json (λ v'. verify_rows self loads v' (suc n) rows)
        (λ v'. verify_each self loads v' (suc n) (row_texts rows)) refl h
        λ v'. rows_verdict v' (suc n) rows hs

  -- A table whose rows hold lines of canonical JSON of objects and columns that agree with them, and
  -- the file of the same lines: both pass their checks with the same decisions seen and the same last
  -- hash, or both fail.
  pub verdicts_agree :
      (rows : List Row)
      → AreLines (row_texts rows)
      → AllColumnsHold loads rows
      → accepted
          (verify_rows self loads (record { expected_prev = none; decision_hashes = [] }) 1 rows)
        ≡ accepted (verify_text self loads (text_of_lines (row_texts rows)))
  verdicts_agree rows lines columns =
      rows_verdict _ 1 rows columns
      ∙ ap accepted (sym (verify_lines-eq self loads _ 1 (row_texts rows) lines))
