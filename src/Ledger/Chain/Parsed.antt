-- ===== src/Ledger/Chain/Parsed.antt =====
-- ledger/jcs.py and json: an entry that was written as canonical JSON and parsed again. Its keys come
-- in the order of the text and its texts normalized; the chain's checks see the same entry.
use sudo_agent.Base.{
  List, String, ◌≡◌, refl, sym, ◌∙◌, Bool, false, Option, none, some, ◌==◌, arith, eq_iff,
  Bool-cases, inl, inr,
}
use sudo_agent.Value.{Value, null, str, dict, Fields, end, field}
use sudo_agent.Value.Dict.{get, set, pop, has}
use sudo_agent.Ledger.Jcs.{
  ok, duplicate_key, object_text, canonical_json, sha256_hex, members, Member,
}
use sudo_agent.Ledger.Chain.{Hashing}
use sudo_agent.Ledger.Jcs.AnyOrder.{Permutes, same, keep, swap, trans}

abbrev pub jcs_hashing :
    (String → String)
    → (String → String)
    → Option (String → String)
    → Option (String → String → Bool)
    → Hashing
jcs_hashing nfc sha256 sign verify = record {
  canonical_json = canonical_json nfc;
  sha256_hex = sha256_hex nfc sha256;
  sign = sign;
  verify = verify;
}

-- No key stands twice.
abbrev pub DistinctKeys : Fields → Type 0
DistinctKeys end = Unit
DistinctKeys (field k v d) = (has k d ≡ false) × DistinctKeys d

has-Permutes : (k : String) (d e : Fields) → Permutes d e → has k d ≡ has k e
has-Permutes k _ _ (same d) = refl
has-Permutes k _ _ (keep j v d e p) = ground (arith, has-Permutes k d e p)
has-Permutes k _ _ (swap i j v w d) = ground arith
has-Permutes k _ _ (trans d e f p q) = has-Permutes k d e p ∙ has-Permutes k e f q

DistinctKeys-Permutes : (d e : Fields) → Permutes d e → DistinctKeys d → DistinctKeys e
DistinctKeys-Permutes _ _ (same d) h = h
DistinctKeys-Permutes _ _ (keep k v d e p) (a, h) =
    (sym (has-Permutes k d e p) ∙ a, DistinctKeys-Permutes d e p h)
DistinctKeys-Permutes _ _ (swap i j v w d) (a, (b, h)) =
    (ground (arith, eq_iff i j, eq_iff j i), (ground (arith, eq_iff i j, eq_iff j i), h))
DistinctKeys-Permutes _ _ (trans d e f p q) h =
    DistinctKeys-Permutes e f q (DistinctKeys-Permutes d e p h)

pub get-Permutes : (k : String) (d e : Fields) → Permutes d e → DistinctKeys d → get k d ≡ get k e
get-Permutes k _ _ (same d) h = refl
get-Permutes k _ _ (keep j v d e p) (a, h) = ground (arith, get-Permutes k d e p h)
get-Permutes k _ _ (swap i j v w d) (a, (b, h)) = ground (arith, eq_iff i k, eq_iff j k, eq_iff j i)
get-Permutes k _ _ (trans d e f p q) h =
    get-Permutes k d e p h ∙ get-Permutes k e f q (DistinctKeys-Permutes d e p h)

pub set-Permutes :
    (k : String) (u : Value) (d e : Fields)
    → Permutes d e
    → DistinctKeys d
    → Permutes (set k u d) (set k u e)
set-Permutes k u _ _ (same d) h = same _
set-Permutes k u _ _ (keep j v d e p) (a, h) = elim (Bool-cases (j == k)) [
  | inl g ↦ rw g (keep j u d e p)
  | inr g ↦ rw g (keep j v _ _ (set-Permutes k u d e p h))
]
set-Permutes k u _ _ (swap i j v w d) (a, (b, h)) = elim (Bool-cases (i == k)) [
  | inl g ↦ elim (Bool-cases (j == k)) [
    | inl f ↦ absurd (ground (arith, eq_iff i k, eq_iff j k, eq_iff j i))
    | inr f ↦ rw (g, f) (swap i j u w d)
  ]
  | inr g ↦ elim (Bool-cases (j == k)) [
    | inl f ↦ rw (g, f) (swap i j v u d)
    | inr f ↦ rw (g, f) (swap i j v w (set k u d))
  ]
]
set-Permutes k u _ _ (trans d e f p q) h =
    trans _ _ _ (set-Permutes k u d e p h) (set-Permutes k u e f q (DistinctKeys-Permutes d e p h))

pub pop-Permutes :
    (k : String) (d e : Fields) → Permutes d e → DistinctKeys d → Permutes (pop k d) (pop k e)
pop-Permutes k _ _ (same d) h = same _
pop-Permutes k _ _ (keep j v d e p) (a, h) = elim (Bool-cases (j == k)) [
  | inl g ↦ rw g p
  | inr g ↦ rw g (keep j v _ _ (pop-Permutes k d e p h))
]
pop-Permutes k _ _ (swap i j v w d) (a, (b, h)) = elim (Bool-cases (i == k)) [
  | inl g ↦ elim (Bool-cases (j == k)) [
    | inl f ↦ absurd (ground (arith, eq_iff i k, eq_iff j k, eq_iff j i))
    | inr f ↦ rw (g, f) (same _)
  ]
  | inr g ↦ elim (Bool-cases (j == k)) [
    | inl f ↦ rw (g, f) (same _)
    | inr f ↦ rw (g, f) (swap i j v w (pop k d))
  ]
]
pop-Permutes k _ _ (trans d e f p q) h =
    trans _ _ _ (pop-Permutes k d e p h) (pop-Permutes k e f q (DistinctKeys-Permutes d e p h))

-- What a value that was written is parsed as: `null` as it is, a text normalized, and any other value as
-- one with the same canonical JSON.
abbrev pub ReadsValue : (String → String) → Value → Value → Type 0
ReadsValue nfc null w = w ≡ null
ReadsValue nfc (str s) w = w ≡ str (nfc s)
ReadsValue nfc v w = canonical_json nfc w ≡ canonical_json nfc v

-- Entry by entry; the keys are in normal form already.
abbrev pub ReadsEntries : (String → String) → Fields → Fields → Type 0
ReadsEntries nfc end end = Unit
ReadsEntries nfc (field k v e) (field j w d) = (j ≡ k) × ReadsValue nfc v w × ReadsEntries nfc e d
ReadsEntries nfc end (field j w d) = ⊥
ReadsEntries nfc (field k v e) end = ⊥

-- The entries come in any order.
abbrev pub ReadsFields : (String → String) → Fields → Fields → Type 0
ReadsFields nfc e d = (c : Fields) × ReadsEntries nfc e c × Permutes c d

module _ (nfc : String → String) (idempotent : (s : String) → nfc (nfc s) ≡ nfc s) where
  canonical_json-ReadsValue :
      (v w : Value) → ReadsValue nfc v w → canonical_json nfc w ≡ canonical_json nfc v
  unfolding canonical_json
  canonical_json-ReadsValue null w h = rw h refl
  canonical_json-ReadsValue (str s) w h = rw (h, idempotent s) refl
  canonical_json-ReadsValue (Value.bool b) w h = h
  canonical_json-ReadsValue (Value.int b) w h = h
  canonical_json-ReadsValue (Value.float b) w h = h
  canonical_json-ReadsValue (Value.decimal b) w h = h
  canonical_json-ReadsValue (Value.bytes b) w h = h
  canonical_json-ReadsValue (Value.list b) w h = h
  canonical_json-ReadsValue (Value.tuple b) w h = h
  canonical_json-ReadsValue (dict b) w h = h
  canonical_json-ReadsValue Value.mixed_dict w h = h
  canonical_json-ReadsValue (Value.other b c) w h = h

  pub members-ReadsEntries : (e d : Fields) → ReadsEntries nfc e d → members nfc d ≡ members nfc e
  unfolding canonical_json
  members-ReadsEntries end end h = refl
  members-ReadsEntries (field k v e) (field j w d) (same_key, value, rest) =
      rw (same_key, canonical_json-ReadsValue v w value, members-ReadsEntries e d rest) refl
  members-ReadsEntries end (field j w d) h = absurd h
  members-ReadsEntries (field k v e) end h = absurd h

  pub set-ReadsEntries :
      (k : String) (u : Value) (e d : Fields)
      → ReadsValue nfc u u
      → ReadsEntries nfc e d
      → ReadsEntries nfc (set k u e) (set k u d)
  set-ReadsEntries k u end end plain h = (refl, plain, tt)
  set-ReadsEntries k u (field i v e) (field j w d) plain (g, value, rest) =
      elim (Bool-cases (i == k)) [
        | inl f ↦ rw (g, f) (refl, plain, rest)
        | inr f ↦ rw (g, f) (refl, value, set-ReadsEntries k u e d plain rest)
      ]
  set-ReadsEntries k u end (field j w d) plain h = absurd h
  set-ReadsEntries k u (field i v e) end plain h = absurd h

  pub pop-ReadsEntries :
      (k : String) (e d : Fields) → ReadsEntries nfc e d → ReadsEntries nfc (pop k e) (pop k d)
  pop-ReadsEntries k end end h = tt
  pop-ReadsEntries k (field i v e) (field j w d) (g, value, rest) = elim (Bool-cases (i == k)) [
    | inl f ↦ rw (g, f) rest
    | inr f ↦ rw (g, f) (refl, value, pop-ReadsEntries k e d rest)
  ]
  pop-ReadsEntries k end (field j w d) h = absurd h
  pop-ReadsEntries k (field i v e) end h = absurd h

  pub get-ReadsEntries :
      (k : String) (e d : Fields) → ReadsEntries nfc e d → ReadsValue nfc (get k e) (get k d)
  get-ReadsEntries k end end h = refl
  get-ReadsEntries k (field i v e) (field j w d) (g, value, rest) = elim (Bool-cases (i == k)) [
    | inl f ↦ rw (g, f) value
    | inr f ↦ rw (g, f) (get-ReadsEntries k e d rest)
  ]
  get-ReadsEntries k end (field j w d) h = absurd h
  get-ReadsEntries k (field i v e) end h = absurd h

  -- A dict that has canonical JSON has no key twice, normalized or not.
  pub no_duplicate :
      (d : Fields) (t : String)
      → canonical_json nfc (dict d) ≡ ok t
      → duplicate_key (members nfc d) ≡ none
  unfolding canonical_json
  no_duplicate d t h = none_of (duplicate_key (members nfc d)) (members nfc d) h
    where
      none_of : (o : Option String) (l : List Member) → object_text o l ≡ ok t → o ≡ none
      none_of none l g = refl
      none_of (some k) l g = absurd (cc g)
