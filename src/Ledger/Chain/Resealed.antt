-- ===== src/Ledger/Chain/Resealed.antt =====
-- ledger/common.py and validation.py: an entry that was appended, parsed from its line again, has the
-- seal that it was written with.
use sudo_agent.Base.{
  [], String, ◌≡◌, refl, sym, ap, ◌∙◌, Bool, false, Option, none, some, arith, eq_iff,
}
use sudo_agent.Value.{Value, null, str, dict, Fields, end, field, opt_str}
use sudo_agent.Value.Dict.{get, set, has, has-set}
use sudo_agent.Ledger.Jcs.{
  Result, ok, err, then_result, duplicate_key, canonical_json, sha256_hex, members, occurs,
}
use sudo_agent.Ledger.Jcs.AnyOrder.{
  AreDistinct, distinct_of_seen, Permutes, canonical_json-Permutes,
}
use sudo_agent.Ledger.Chain.{Hashing, body, candidate}
use sudo_agent.Ledger.Chain.Sealed.{
  sealed, hash-sealed, prev-sealed, signature-sealed, unsigned-sealed, body-sealed,
}
use sudo_agent.Ledger.Chain.Parsed.{
  jcs_hashing, DistinctKeys, get-Permutes, set-Permutes, pop-Permutes, ReadsEntries, ReadsFields,
  members-ReadsEntries, set-ReadsEntries, pop-ReadsEntries, get-ReadsEntries, no_duplicate,
}

-- Two objects that the checks of a chain cannot tell apart, but for their contents: they have the same
-- canonical JSON, the same hash of the body, and the same values under the keys of the chain.
pub record SameSeal (self : Hashing) (d e : Fields) : Type 0 where
  pub text : self.canonical_json (dict d) ≡ self.canonical_json (dict e)
  pub body_hash : self.sha256_hex (dict (body d)) ≡ self.sha256_hex (dict (body e))
  pub prev_entry_hash : get "prev_entry_hash" d ≡ get "prev_entry_hash" e
  pub entry_hash : get "entry_hash" d ≡ get "entry_hash" e
  pub entry_signature : get "entry_signature" d ≡ get "entry_signature" e

-- Normalization leaves what there is as it is.
abbrev pub IsPlain : (String → String) → Option String → Type 0
IsPlain nfc none = Unit
IsPlain nfc (some s) = nfc s ≡ s

abbrev pub SignaturesArePlain : (String → String) → Option (String → String) → Type 0
SignaturesArePlain nfc none = Unit
SignaturesArePlain nfc (some sign) = (h : String) → nfc (sign h) ≡ sign h

has-members :
    (nfc : String → String) (k : String) (d : Fields)
    → occurs (nfc k) (members nfc d) ≡ false
    → has k d ≡ false
unfolding canonical_json
has-members nfc k end h = refl
has-members nfc k (field j v d) h =
    ground (arith, eq_iff j k, eq_iff (nfc j) (nfc k), has-members nfc k d, ap_nfc)
  where
    ap_nfc : j ≡ k → nfc j ≡ nfc k
    ap_nfc e = ap nfc e

distinct_keys : (nfc : String → String) (d : Fields) → AreDistinct (members nfc d) → DistinctKeys d
unfolding canonical_json
distinct_keys nfc end h = tt
distinct_keys nfc (field k v d) (a, h) = (has-members nfc k d a, distinct_keys nfc d h)

set-DistinctKeys : (k : String) (u : Value) (d : Fields) → DistinctKeys d → DistinctKeys (set k u d)
set-DistinctKeys k u end h = (refl, tt)
set-DistinctKeys k u (field j v d) (a, h) =
    ground (arith, eq_iff j k, eq_iff k j, has-set k j u d, set-DistinctKeys k u d h)

get_absent : (k : String) (d : Fields) → has k d ≡ false → get k d ≡ null
get_absent k end h = refl
get_absent k (field j v d) h = ground (arith, get_absent k d)

module _ (nfc : String → String) (idempotent : (s : String) → nfc (nfc s) ≡ nfc s) where
  entries_same :
      (e c : Fields)
      → ReadsEntries nfc e c
      → canonical_json nfc (dict c) ≡ canonical_json nfc (dict e)
  unfolding canonical_json
  entries_same e c r = rw (members-ReadsEntries nfc idempotent e c r) refl

  no_duplicate_read :
      (e c : Fields) (t : String)
      → canonical_json nfc (dict e) ≡ ok t
      → ReadsEntries nfc e c
      → duplicate_key (members nfc c) ≡ none
  no_duplicate_read e c t h r = no_duplicate nfc idempotent c t (entries_same e c r ∙ h)

  canonical_same :
      (e c d : Fields) (t : String)
      → canonical_json nfc (dict e) ≡ ok t
      → ReadsEntries nfc e c
      → Permutes c d
      → canonical_json nfc (dict d) ≡ canonical_json nfc (dict e)
  canonical_same e c d t h r p =
      sym (canonical_json-Permutes nfc c d p (no_duplicate_read e c t h r)) ∙ entries_same e c r

  keys_of_read :
      (e c : Fields) (t : String)
      → canonical_json nfc (dict e) ≡ ok t
      → ReadsEntries nfc e c
      → DistinctKeys c
  keys_of_read e c t h r =
      distinct_keys nfc c (distinct_of_seen [] (members nfc c) (no_duplicate_read e c t h r)).0

  body_same :
      (e c d : Fields) (t u : String)
      → canonical_json nfc (dict e) ≡ ok t
      → canonical_json nfc (dict (body e)) ≡ ok u
      → ReadsEntries nfc e c
      → Permutes c d
      → canonical_json nfc (dict (body d)) ≡ canonical_json nfc (dict (body e))
  body_same e c d t u h g r p =
      let keys = keys_of_read e c t h r in
      canonical_same (body e) (body c) (body d) u g
        (pop-ReadsEntries nfc idempotent "entry_signature" _ _
          (set-ReadsEntries nfc idempotent "entry_hash" null e c refl r))
        (pop-Permutes "entry_signature" _ _ (set-Permutes "entry_hash" null c d p keys)
          (set-DistinctKeys "entry_hash" null c keys))

  -- What is parsed under a key
  text_same :
      (k s : String) (e c : Fields)
      → ReadsEntries nfc e c
      → get k e ≡ str s
      → nfc s ≡ s
      → get k c ≡ get k e
  text_same k s e c r h plain =
      (rw h at (get-ReadsEntries nfc idempotent k e c r)) ∙ ap (λ x. str x) plain ∙ sym h

  null_same :
      (k : String) (e c : Fields) → ReadsEntries nfc e c → get k e ≡ null → get k c ≡ get k e
  null_same k e c r h = (rw h at (get-ReadsEntries nfc idempotent k e c r)) ∙ sym h

  signature_same :
      (sign : Option (String → String)) (last : Option String) (h : String) (e c : Fields)
      → SignaturesArePlain nfc sign
      → has "entry_signature" e ≡ false
      → ReadsEntries nfc (sealed sign last h e) c
      → get "entry_signature" c ≡ get "entry_signature" (sealed sign last h e)
  signature_same none last h e c plain unsigned r =
      null_same "entry_signature" (sealed none last h e) c r
        (get_absent "entry_signature" (sealed none last h e) (unsigned-sealed last h e unsigned))
  signature_same (some sign) last h e c plain unsigned r =
      text_same "entry_signature" (sign h) (sealed (some sign) last h e) c r
        (signature-sealed sign last h e) (plain h)

  module _ (sha256 : String → String) (sign : Option (String → String))
      (verify : Option (String → String → Bool))
      (digests : (t : String) → nfc (sha256 t) ≡ sha256 t)
      (signatures : SignaturesArePlain nfc sign) where
    -- A hash is a digest.
    pub hash_plain : (v : Value) (h : String) → sha256_hex nfc sha256 v ≡ ok h → nfc h ≡ h
    unfolding sha256_hex
    hash_plain v h g = plain (canonical_json nfc v) g
      where
        plain : (r : Result String) → (then_result r λ text. ok (sha256 text)) ≡ ok h → nfc h ≡ h
        plain (ok t) k = let e : sha256 t ≡ h = cc k in rw (← e) (digests t)
        plain (err x) k = absurd (cc k)

    canonical_of_hash :
        (v : Value) (h : String)
        → sha256_hex nfc sha256 v ≡ ok h
        → (t : String) × (canonical_json nfc v ≡ ok t)
    unfolding sha256_hex
    canonical_of_hash v h g = text (canonical_json nfc v) g
      where
        text :
            (r : Result String)
            → (then_result r λ text. ok (sha256 text)) ≡ ok h
            → (t : String) × (r ≡ ok t)
        text (ok t) k = (t, refl)
        text (err x) k = absurd (cc k)

    body_hash_same :
        (d e : Fields)
        → canonical_json nfc (dict d) ≡ canonical_json nfc (dict e)
        → sha256_hex nfc sha256 (dict d) ≡ sha256_hex nfc sha256 (dict e)
    unfolding sha256_hex
    body_hash_same d e h = rw h refl

    prev_same :
        (last : Option String) (e c : Fields)
        → IsPlain nfc last
        → ReadsEntries nfc e c
        → get "prev_entry_hash" e ≡ opt_str last
        → get "prev_entry_hash" c ≡ get "prev_entry_hash" e
    prev_same none e c plain r h = null_same "prev_entry_hash" e c r h
    prev_same (some l) e c plain r h = text_same "prev_entry_hash" l e c r h plain

    pub resealed-SameSeal :
        (last : Option String) (e : Fields) (h line : String) (d : Fields)
        → IsPlain nfc last
        → sha256_hex nfc sha256 (dict (candidate last e)) ≡ ok h
        → canonical_json nfc (dict (sealed sign last h e)) ≡ ok line
        → has "entry_signature" e ≡ false
        → ReadsFields nfc (sealed sign last h e) d
        → SameSeal (jcs_hashing nfc sha256 sign verify) d (sealed sign last h e)
    resealed-SameSeal last e h line d plain hashed lined unsigned (c, r, p) = record {
      text = canonical_same (sealed sign last h e) c d line lined r p;
      body_hash =
          body_hash_same (body d) (body (sealed sign last h e))
            (body_same (sealed sign last h e) c d line body_text.0 lined body_text.1 r p);
      prev_entry_hash =
          sym (get-Permutes "prev_entry_hash" c d p keys)
          ∙ prev_same last (sealed sign last h e) c plain r (prev-sealed sign last h e);
      entry_hash =
          sym (get-Permutes "entry_hash" c d p keys)
          ∙ text_same "entry_hash" h (sealed sign last h e) c r (hash-sealed sign last h e)
              (hash_plain (dict (candidate last e)) h hashed);
      entry_signature =
          sym (get-Permutes "entry_signature" c d p keys)
          ∙ signature_same sign last h e c signatures unsigned r;
    }
      where
        keys : DistinctKeys c
        keys = keys_of_read (sealed sign last h e) c line lined r

        body_text : (t : String) × (canonical_json nfc (dict (body (sealed sign last h e))) ≡ ok t)
        body_text =
            rw (body-sealed sign last h e unsigned)
              (canonical_of_hash (dict (candidate last e)) h hashed)
