-- ===== src/Ledger/Jsonl/Appended.antt =====
-- The file that appending makes: one line for each entry, chained as the entries of an abstract
-- ledger are. The hashing is that of ledger/jcs.py.
use Prim.Native.String.{◌++◌ as ◌<>◌}
use text.Mathlib.TextLemmas.{nil-append, append_assoc, append-nil}
use mathlib.Core.List
use sudo_agent.Base.{
  ℕ, suc, ◌≡◌, refl, sym, ap, ◌∙◌, String, Bool, Option, none, some, List, [], ◌∷◌, ◌++◌, arith,
  inl, inr,
}
use sudo_agent.Value.{Value, str, dict, Fields, text_of, fields_of}
use sudo_agent.Value.Dict.{get}
use sudo_agent.Ledger.Jcs.{Result, ok, err, then_result, canonical_json, sha256_hex}
use sudo_agent.Ledger.Jcs.OneLine.{canonical_json-Plain, canonical_json-Braced}
use sudo_agent.Ledger.Chain.{
  ParsedEntry, Hashing, candidate, prepare_entry, append_after, append_all,
}
pub use sudo_agent.Ledger.Chain.Parsed.{jcs_hashing}
use sudo_agent.Ledger.Chain.Sealed.{sealed, hash-sealed}
use sudo_agent.Ledger.Chain.Appended.{Result-cases, line_of}
use sudo_agent.Ledger.Jsonl.{
  Bytes, encode, tail_read_chunk_size, strip_bytes, last_part, rstrip_newlines, tail_data,
}
use sudo_agent.Ledger.Jsonl.Lines.{
  text_of_lines, IsLine, AreLines, last_of, last_of-IsLine, last_line_bytes, encode-IsLine,
}
use sudo_agent.Ledger.Jsonl.Operations.{
  Loaded, value, Completion, returned, last_hash_of, hash_in_line, read_last_entry_hash, append,
  opened,
}

abbrev pub lines_of : List ParsedEntry → List String
lines_of [] = []
lines_of (p ∷ chain) = line_of p ∷ lines_of chain

-- The entry's `entry_hash`, as the file's reader gets it
abbrev pub hash_of : ParsedEntry → Value
hash_of p = hash_in (fields_of p.entry)
  where
    hash_in : Option Fields → Value
    hash_in none = str ""
    hash_in (some e) = get "entry_hash" e

-- `json.loads` gives an object with the hash that the entry was written with.
abbrev pub ReadsHash : (Bytes → Loaded) → ParsedEntry → Type 0
ReadsHash loads p =
    (e : Fields) × (loads (encode (line_of p)) ≡ value (dict e)) × (get "entry_hash" e ≡ hash_of p)

abbrev pub ReadHashes : (Bytes → Loaded) → List ParsedEntry → Type 0
ReadHashes loads [] = Unit
ReadHashes loads (p ∷ chain) = ReadsHash loads p × ReadHashes loads chain

text_of_lines-append :
    (lines : List String) (l : String)
    → text_of_lines lines <> l <> "\n" ≡ text_of_lines (lines ++ l ∷ [])
text_of_lines-append [] l = rw (nil-append, append-nil) refl
text_of_lines-append (m ∷ lines) l =
    append_assoc m ("\n" <> text_of_lines lines) (l <> "\n")
    ∙ ap (λ (s : String). m <> s)
        (append_assoc "\n" (text_of_lines lines) (l <> "\n")
          ∙ ap (λ (s : String). "\n" <> s) (text_of_lines-append lines l))

AreLines-append :
    (lines : List String) (l : String) → AreLines lines → IsLine l → AreLines (lines ++ l ∷ [])
AreLines-append [] l hs h = (h, tt)
AreLines-append (m ∷ lines) l (k, ks) h = (k, AreLines-append lines l ks h)

last_of-append : (m : String) (lines : List String) (l : String) → last_of m (lines ++ l ∷ []) ≡ l
last_of-append m [] l = refl
last_of-append m (n ∷ lines) l = last_of-append n lines l

-- What a sequence of appends returns, and the file after it.
pub run_appends :
    Hashing
    → (Bytes → Loaded)
    → List Fields
    → Option String
    → List (Completion String) × Option String
unfolding append
run_appends self loads [] file = ([], file)
run_appends self loads (e ∷ entries) file =
    let (r, file') = append self loads e file in
    let (rs, file'') = run_appends self loads entries file' in (r ∷ rs, file'')

abbrev pub returned_hash : Value → Completion String
returned_hash v = hash_text (text_of v)
  where
    hash_text : Option String → Completion String
    hash_text none = returned ""
    hash_text (some h) = returned h

abbrev pub hashes_of : List ParsedEntry → List (Completion String)
hashes_of [] = []
hashes_of (p ∷ chain) = returned_hash (hash_of p) ∷ hashes_of chain

module _ (nfc sha256 : String → String) (sign : Option (String → String))
    (verify : Option (String → String → Bool)) (loads : Bytes → Loaded) where
  abbrev self : Hashing
  self = jcs_hashing nfc sha256 sign verify

  canonical-IsLine : (d : Fields) (t : String) → canonical_json nfc (dict d) ≡ ok t → IsLine t
  canonical-IsLine d t h = (canonical_json-Plain nfc (dict d) t h, canonical_json-Braced nfc d t h)

  -- Bytes that read as an object with the hash `h`
  hash_in_line-eq :
      (b c s : Bytes) (first : ℕ) (h : String) (e : Fields)
      → b ≡ c
      → c ≡ first ∷ s
      → loads c ≡ value (dict e)
      → get "entry_hash" e ≡ str h
      → hash_in_line self loads b ≡ ok (some h)
  hash_in_line-eq b c s first h e same shape read hashed =
      ap (hash_in_line self loads) (same ∙ shape)
      ∙ ap last_hash_of (sym (ap loads shape) ∙ read)
      ∙ rw hashed refl

  tail_bytes-append :
      (lines : List String) (l : String)
      → AreLines (lines ++ l ∷ [])
      → (s : Bytes) × (strip_bytes (
            last_part (
              rstrip_newlines
                (tail_data tail_read_chunk_size (encode (text_of_lines (lines ++ l ∷ []))))))
          ≡ encode l)
        × (encode l ≡ 123 ∷ s)
  tail_bytes-append [] l hs =
      let (s, e) = encode-IsLine l hs.0 in
      (s, last_line_bytes tail_read_chunk_size l [] (omega arith) hs, e)
  tail_bytes-append (m ∷ lines) l hs =
      let last = last_of-append m lines l in
      let (s, e) = encode-IsLine l (rw last at (last_of-IsLine m (lines ++ l ∷ []) hs)) in
      (
        s,
        last_line_bytes tail_read_chunk_size m (lines ++ l ∷ []) (omega arith) hs ∙ ap encode last,
        e,
      )

  -- The end of a file of lines, the last of which reads as an object with the hash `h`.
  read_last-lines :
      (lines : List String) (l h : String) (e : Fields)
      → AreLines (lines ++ l ∷ [])
      → loads (encode l) ≡ value (dict e)
      → get "entry_hash" e ≡ str h
      → read_last_entry_hash self loads (text_of_lines (lines ++ l ∷ [])) ≡ ok (some h)
  unfolding read_last_entry_hash
  read_last-lines lines l h e hs read hashed =
      let (s, same, shape) = tail_bytes-append lines l hs in
      hash_in_line-eq _ (encode l) s 123 h e same shape read hashed

  append-eq :
      (entry : Fields) (file : Option String) (last : Option String) (h line : String)
      → read_last_entry_hash self loads (opened self loads file) ≡ ok last
      → sha256_hex nfc sha256 (dict (candidate last entry)) ≡ ok h
      → canonical_json nfc (dict (sealed sign last h entry)) ≡ ok line
      → append self loads entry file ≡ (returned h, some (opened self loads file <> line <> "\n"))
  unfolding append prepare_entry
  append-eq entry file last h line read hashed lined = rw (read, hashed, lined) refl

  -- What the appends make of a file of lines, from the chain that they are to add to it
  abbrev Extends : List String → List Fields → Option String → Result (List ParsedEntry) → Type 0
  Extends lines entries file (err e) = Unit
  Extends lines entries file (ok chain) =
      ReadHashes loads chain
      → ((run_appends self loads entries file).0 ≡ hashes_of chain)
        × (opened self loads (run_appends self loads entries file).1
            ≡ text_of_lines (lines ++ lines_of chain))

  -- The entry that is written, as the abstract chain has it
  abbrev entered : Option String → ℕ → Fields → String → String → ParsedEntry
  entered last idx e h line = record {
    entry = dict (sealed sign last h e);
    raw = some line;
    index = idx;
    row_entry_hash = none;
    row_prev_hash = none;
  }

  first-Extends :
      (lines : List String) (e : Fields) (entries : List Fields) (file file' last : Option String)
      (idx : ℕ) (h line : String)
      → append self loads e file ≡ (returned h, file')
      → (r : Result (List ParsedEntry))
      → (ReadsHash loads (entered last idx e h line) → Extends (lines ++ line ∷ []) entries file' r)
      → Extends lines
          (e ∷ entries)
          file
          (then_result r λ rest. ok (entered last idx e h line ∷ rest))
  unfolding run_appends
  first-Extends lines e entries file file' last idx h line appended (err x) later = tt
  first-Extends lines e entries file file' last idx h line appended (ok rest) later =
      λ (now, then_).
        let (outcomes, text) = later now then_ in
        rw (appended, hash-sealed sign last h e)
          (
            ap (◌∷◌ (returned h)) outcomes,
            text ∙ ap text_of_lines (List.append_assoc lines (line ∷ []) (lines_of rest)),
          )

  run_appends-Extends :
      (lines : List String) (entries : List Fields) (file last : Option String) (idx : ℕ)
      → AreLines lines
      → opened self loads file ≡ text_of_lines lines
      → read_last_entry_hash self loads (text_of_lines lines) ≡ ok last
      → Extends lines entries file (append_all self last idx entries)
  unfolding append_all append_after prepare_entry run_appends
  run_appends-Extends lines [] file last idx hs holds read =
      λ _. (refl, holds ∙ rw List.append-nil refl)
  run_appends-Extends lines (e ∷ entries) file last idx hs holds read =
      elim (Result-cases (sha256_hex nfc sha256 (dict (candidate last e)))) [
        | inr (x, k) ↦ rw k tt
        | inl (h, k) ↦ elim (Result-cases (canonical_json nfc (dict (sealed sign last h e)))) [
          | inr (x, l) ↦ rw (k, l) tt
          | inl (line, l) ↦
              let text = opened self loads file <> line <> "\n" in
              let longer =
                AreLines-append lines line hs (canonical-IsLine (sealed sign last h e) line l) in
              let holds' : text ≡ text_of_lines (lines ++ line ∷ []) =
                ap (λ (s : String). s <> line <> "\n") holds ∙ text_of_lines-append lines line in
              rw (k, l)
                (first-Extends lines e entries file (some text) last idx h line
                  (append-eq e file last h line (rw holds read) k l)
                  (append_all self (some h) (suc idx) entries)
                  λ now.
                    run_appends-Extends (lines ++ line ∷ []) entries (some text) (some h) (suc idx)
                      longer holds'
                      (read_last-lines lines line h now.0 longer now.1
                        (now.2 ∙ hash-sealed sign last h e)))
        ]
      ]

  -- Where `json.loads` gives back the hashes of the entries that were written, and making the chain
  -- of these entries succeeds: appending them one after another to a ledger file that does not exist
  -- returns the hashes of the chain, and leaves the file with the lines of the chain and nothing else.
  pub run_appends-Refines :
      (entries : List Fields) (chain : List ParsedEntry)
      → append_all self none 1 entries ≡ ok chain
      → ReadHashes loads chain
      → ((run_appends self loads entries none).0 ≡ hashes_of chain)
        × (opened self loads (run_appends self loads entries none).1
            ≡ text_of_lines (lines_of chain))
  unfolding read_last_entry_hash encode tail_data
  run_appends-Refines entries chain made read =
      (rw made at (run_appends-Extends [] entries none none 1 tt refl refl)) read
