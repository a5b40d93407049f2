-- ===== src/Ledger/Examples.antt =====
-- Runs of canonical JSON and of the chain, and the chain's theorems at concrete data. The digest is
-- the text itself.
use Prim.Native.String.{◌++◌ as ◌<>◌}
use sudo_agent.Base.{
  arith, eq_iff, ◌≡◌, refl, ℕ, zero, suc, Bool-cases, inl, inr, String, true, false, Option,
  if◌then◌else◌, none, some, List, [], ◌∷◌, ◌==◌,
}
use sudo_agent.Base.Int.{pos, negsuc}
use sudo_agent.Value.{
  Value, end, field, fields_of, null, int, decimal, finite, str, dict, Fields, fields,
}
use sudo_agent.Base.Text.{precedes}
use sudo_agent.Ledger.Numerals.{show_nat, json_string, repr_text}
use sudo_agent.Ledger.Jcs.{
  canonicalization, Result, ok, err, canonical_decimal, canonical_json, sha256_hex,
}
use sudo_agent.Ledger.Jcs.AnyOrder.{Permutes, same, keep, trans, swap, canonical_json-Permutes}
use sudo_agent.Ledger.Numerals.Plain.{Plain}
use sudo_agent.Ledger.Jcs.OneLine.{canonical_json-Plain}
use sudo_agent.Ledger.Chain.{
  ParsedEntry, Verifier, Hashing, check_values, validate_from, validate_parsed_entries,
  prepare_entry, append_after, append_all,
}
use sudo_agent.Ledger.Chain.Parsed.{ReadsValue, ReadsEntries, ReadsFields}
use sudo_agent.Ledger.Chain.Appended.{line_of, parsed_back, KeysFit, append_all-Accepts, Accepts}
use sudo_agent.Ledger.Chain.Tamper.{bodies_onto, tamper_evident}

abbrev id : String → String
id s = s

sorted_keys :
    canonical_json id (
      dict (
        fields (
          ("b", int (negsuc 11))
          ∷ ("a", str "x\n\"")
          ∷ ("c", decimal (finite true 1500 (negsuc 2)))
          ∷ [])))
    ≡ ok "{\"a\":\"x\\n\\\"\",\"b\":-12,\"c\":-1.5}"
unfolding canonical_json show_nat json_string canonical_decimal
sorted_keys = refl

-- The key that comes a second time first is named.
twice :
    canonical_json id (dict (fields (("a", null) ∷ ("b'", null) ∷ ("b'", null) ∷ ("a", null) ∷ [])))
    ≡ err (canonicalization "duplicate key after NFC normalization: \"b'\"")
unfolding canonical_json
twice = refl

abbrev hashing : Hashing
hashing = record {
  canonical_json = canonical_json id;
  sha256_hex = sha256_hex id id;
  sign = some (λ h. "signed " <> h);
  verify = some (λ h s. s == "signed " <> h);
}

abbrev entry : String → Fields
entry event = fields (
    ("schema_version", str "2.0")
    ∷ ("ledger_version", str "2.0")
    ∷ ("event", str event)
    ∷ ("request_id", str "r1")
    ∷ ("decision", dict (fields (("decision_hash", str "d1") ∷ [])))
    ∷ [])

abbrev entries : List Fields
entries = entry "decision" ∷ entry "outcome" ∷ []

abbrev or_nil : Result (List ParsedEntry) → List ParsedEntry
or_nil (ok l) = l
or_nil (err e) = []

abbrev chain : List ParsedEntry
chain = or_nil (append_all hashing none 1 entries)

hashing-fits : KeysFit hashing.sign hashing.verify
hashing-fits h = ground (arith, eq_iff ("signed " <> h) ("signed " <> h))

-- What `json.loads` gives for the lines of the chain: the keys are in the order of the text.
abbrev place_key : String → Value → Fields → Fields
place_key k v end = field k v end
place_key k v (field j w d) =
    let rest = place_key k v d in if precedes j k then field j w rest else field k v (field j w d)

abbrev by_key : Fields → Fields
by_key end = end
by_key (field k v d) = place_key k v (by_key d)

abbrev fields_in : ParsedEntry → Fields
fields_in p = or_end (fields_of p.entry)
  where
    or_end : Option Fields → Fields
    or_end none = end
    or_end (some e) = e

abbrev object_of : ParsedEntry → Fields
object_of p = by_key (fields_in p)

abbrev entry_at : ℕ → List ParsedEntry → Fields
entry_at n [] = end
entry_at zero (p ∷ l) = fields_in p
entry_at (suc n) (p ∷ l) = entry_at n l

abbrev objects_of : List ParsedEntry → List Fields
objects_of [] = []
objects_of (p ∷ l) = object_of p ∷ objects_of l

abbrev loads_from : List ParsedEntry → String → Value
loads_from [] line = null
loads_from (p ∷ l) line = if line_of p == line then dict (object_of p) else loads_from l line

place_key-Permutes :
    (k : String) (v : Value) (d : Fields) → Permutes (field k v d) (place_key k v d)
place_key-Permutes k v end = same _
place_key-Permutes k v (field j w d) = elim (Bool-cases (precedes j k)) [
  | inl g ↦
      rw g (trans _ _ _ (swap k j v w d) (keep j w (field k v d) _ (place_key-Permutes k v d)))
  | inr g ↦ rw g (same _)
]

by_key-Permutes : (d : Fields) → Permutes d (by_key d)
by_key-Permutes end = same _
by_key-Permutes (field k v d) =
    trans _ _ _ (keep k v d _ (by_key-Permutes d)) (place_key-Permutes k v (by_key d))

reads_value : (v : Value) → ReadsValue id v v
reads_value null = refl
reads_value (str s) = refl
reads_value (Value.bool b) = refl
reads_value (int n) = refl
reads_value (Value.float r) = refl
reads_value (decimal d) = refl
reads_value (Value.bytes n) = refl
reads_value (Value.list l) = refl
reads_value (Value.tuple l) = refl
reads_value (dict d) = refl
reads_value Value.mixed_dict = refl
reads_value (Value.other n b) = refl

reads_entries : (d : Fields) → ReadsEntries id d d
reads_entries end = tt
reads_entries (field k v d) = (refl, reads_value v, reads_entries d)

reads_by_key : (d : Fields) → ReadsFields id d (by_key d)
reads_by_key d = (d, reads_entries d, by_key-Permutes d)

append_all-Accepts_example :
    Accepts
      (validate_parsed_entries hashing (parsed_back (loads_from chain) chain))
      (("d1", "r1") ∷ [])
unfolding append_all append_after prepare_entry canonical_json sha256_hex show_nat json_string
    check_values
append_all-Accepts_example =
    append_all-Accepts id id (some (λ h. "signed " <> h)) (some (λ h s. s == "signed " <> h))
      (loads_from chain) hashing-fits (λ s. refl) (λ t. refl) (λ h. refl) entries chain
      (objects_of chain) (("d1", "r1") ∷ []) refl (refl, (refl, tt))
      ((refl, reads_by_key (entry_at 0 chain)), ((refl, reads_by_key (entry_at 1 chain)), tt)) refl

-- Read without the lines, the same entries pass too.
abbrev unread : ParsedEntry → ParsedEntry
unread p = record p { raw = none }

abbrev unread_all : List ParsedEntry → List ParsedEntry
unread_all [] = []
unread_all (p ∷ l) = unread p ∷ unread_all l

abbrev head_hash : Result Verifier → Verifier
head_hash (ok v) = v
head_hash (err e) = record { expected_prev = none; decision_hashes = [] }

differ : {A : Type 0} (s t : String) (x y : A) → ok s ≡ ok t → (s == t) ≡ false → x ≡ y
differ s t x y h d = absurd (ground (arith, eq_iff s t))

tamper_evident_example : bodies_onto [] chain ≡ bodies_onto [] (unread_all chain)
unfolding append_all append_after prepare_entry canonical_json sha256_hex show_nat json_string
    check_values validate_from
tamper_evident_example =
    tamper_evident hashing (head_hash (validate_parsed_entries hashing chain))
      (head_hash (validate_parsed_entries hashing (unread_all chain))) chain (unread_all chain) refl
      refl refl
      (
        (λ _. refl, (λ h. differ _ _ _ _ h refl, tt)),
        ((λ h. differ _ _ _ _ h refl, (λ _. refl, tt)), tt),
      )

canonical_json-Permutes_example :
    canonical_json id (dict (fields (("b", int (pos 1)) ∷ ("a", null) ∷ [])))
    ≡ canonical_json id (dict (fields (("a", null) ∷ ("b", int (pos 1)) ∷ [])))
unfolding canonical_json
canonical_json-Permutes_example =
    canonical_json-Permutes id (fields (("b", int (pos 1)) ∷ ("a", null) ∷ []))
      (fields (("a", null) ∷ ("b", int (pos 1)) ∷ [])) (swap "b" "a" (int (pos 1)) null (fields []))
      refl

canonical_json-Plain_example : Plain "{\"a\":\"x\\ny\"}"
unfolding canonical_json json_string
canonical_json-Plain_example =
    canonical_json-Plain id (dict (fields (("a", str "x\ny") ∷ []))) "{\"a\":\"x\\ny\"}" refl

quotes : (repr_text "a\n" ≡ "'a\\n'") × (repr_text "a'\"\\" ≡ "'a\\'\"\\\\'")
quotes = (refl, refl)
