-- ===== src/Ledger/Chain/Appended.antt =====
-- A ledger that was made by appending passes its check.
use sudo_agent.Base.{
  ℕ, suc, String, ◌≡◌, refl, ◌⊎◌, inl, inr, Bool, true, false, Option, none, some, List, [], ◌∷◌,
  arith, eq_iff, ◌==◌,
}
use sudo_agent.Base.Dict.{Dict}
use sudo_agent.Value.{Value, dict, Fields, opt_str, fields_of}
use sudo_agent.Value.Dict.{get, has}
use sudo_agent.Ledger.Jcs.{Error, Result, ok, err, then_result}
use sudo_agent.Ledger.Chain.{
  ParsedEntry, Verifier, Hashing, candidate, check_content, check_prev, check_signature,
  validate_entry, validate_from, validate_parsed_entries, prepare_entry, append_after, append_all,
}
use sudo_agent.Ledger.Chain.Parsed.{jcs_hashing, ReadsFields}
use sudo_agent.Ledger.Chain.Resealed.{
  SameSeal, IsPlain, SignaturesArePlain, hash_plain, resealed-SameSeal,
}
use sudo_agent.Ledger.Chain.Sealed.{sealed, hash-sealed, prev-sealed, signature-sealed, body-sealed}

pub Result-cases :
    {A : Type 0} (r : Result A) → ((a : A) × (r ≡ ok a)) ⊎ ((e : Error) × (r ≡ err e))
Result-cases (ok a) = inl (a, refl)
Result-cases (err e) = inr (e, refl)

eq_self : (s : String) → (s == s) ≡ true
eq_self s = ground (arith, eq_iff s s)

check_prev-opt_str : (last : Option String) (idx : ℕ) → check_prev (opt_str last) last idx ≡ ok tt
check_prev-opt_str none idx = refl
check_prev-opt_str (some h) idx = ground (arith, eq_iff h h)

-- The keys fit: what is signed is accepted, and where there is a public key there is a signing key.
abbrev pub KeysFit : Option (String → String) → Option (String → String → Bool) → Type 0
KeysFit sign none = Unit
KeysFit none (some verify) = false ≡ true
KeysFit (some sign) (some verify) = (h : String) → verify h (sign h) ≡ true

signature-IsAccepted :
    (sign : Option (String → String)) (verify : Option (String → String → Bool))
    (last : Option String) (h : String) (e : Fields) (idx : ℕ)
    → KeysFit sign verify
    → check_signature verify (get "entry_signature" (sealed sign last h e)) h idx ≡ ok tt
signature-IsAccepted sign none last h e idx fit = refl
signature-IsAccepted none (some verify) last h e idx fit = absurd (cc fit)
signature-IsAccepted (some sign) (some verify) last h e idx fit =
    rw (signature-sealed sign last h e, fit h) refl

abbrev pub line_of : ParsedEntry → String
line_of p = or_empty p.raw
  where
    or_empty : Option String → String
    or_empty none = ""
    or_empty (some line) = line

-- `json.loads` of the written line gives the object `d`, with its keys in the order of the line and its
-- texts normalized.
abbrev pub ReadsAs : (String → String) → (String → Value) → ParsedEntry → Fields → Type 0
ReadsAs nfc loads p d = (loads (line_of p) ≡ dict d) × read_from (fields_of p.entry)
  where
    read_from : Option Fields → Type 0
    read_from none = ⊥
    read_from (some e) = ReadsFields nfc e d

abbrev pub AllReadAs :
    (String → String) → (String → Value) → List ParsedEntry → List Fields → Type 0
AllReadAs nfc loads [] [] = Unit
AllReadAs nfc loads (p ∷ chain) (d ∷ objects) =
    ReadsAs nfc loads p d × AllReadAs nfc loads chain objects
AllReadAs nfc loads [] (d ∷ objects) = ⊥
AllReadAs nfc loads (p ∷ chain) [] = ⊥

-- The entries as they are parsed from their lines
abbrev pub parsed_back : (String → Value) → List ParsedEntry → List ParsedEntry
parsed_back loads [] = []
parsed_back loads (p ∷ chain) = record p { entry = loads (line_of p) } ∷ parsed_back loads chain

module _ (self : Hashing) (fit : KeysFit self.sign self.verify) where
  -- What an appended entry looks like when it is read back as the object `d`.
  abbrev written : ℕ → Fields → String → ParsedEntry
  written idx d line = record {
    entry = dict d;
    raw = some line;
    index = idx;
    row_entry_hash = none;
    row_prev_hash = none;
  }

  written-IsValid :
      (last : Option String) (idx : ℕ) (e d : Fields) (h line : String)
      (hashes hashes' : Dict String)
      → self.sha256_hex (dict (candidate last e)) ≡ ok h
      → self.canonical_json (dict (sealed self.sign last h e)) ≡ ok line
      → has "entry_signature" e ≡ false
      → SameSeal self d (sealed self.sign last h e)
      → check_content d hashes idx ≡ ok hashes'
      → validate_entry self
          (record { expected_prev = last; decision_hashes = hashes })
          (written idx d line)
        ≡ ok (record { expected_prev = some h; decision_hashes = hashes' })
  written-IsValid last idx e d h line hashes hashes' hashed lined unsigned seal content =
      rw
        (
          seal.text,
          lined,
          eq_self line,
          content,
          seal.prev_entry_hash,
          prev-sealed self.sign last h e,
          check_prev-opt_str last idx,
          seal.body_hash,
          body-sealed self.sign last h e unsigned,
          hashed,
          seal.entry_hash,
          hash-sealed self.sign last h e,
          eq_self h,
          seal.entry_signature,
          signature-IsAccepted self.sign self.verify last h e idx fit,
        )
        refl

-- The checks on the contents of entries that follow each other.
abbrev pub contents : Dict String → ℕ → List Fields → Result (Dict String)
contents hashes idx [] = ok hashes
contents hashes idx (e ∷ entries) =
    then_result (check_content e hashes idx) λ hashes'. contents hashes' (suc idx) entries

-- None comes with a signature of its own.
abbrev pub AreUnsigned : List Fields → Type 0
AreUnsigned [] = Unit
AreUnsigned (e ∷ entries) = (has "entry_signature" e ≡ false) × AreUnsigned entries

-- The check passed, and has seen these decisions.
abbrev pub Accepts : Result Verifier → Dict String → Type 0
Accepts (ok v) hashes = v.decision_hashes ≡ hashes
Accepts (err e) hashes = false ≡ true

-- However the appended ledger is read back as objects whose contents fit each other, it is accepted.
abbrev AcceptsAll :
    Hashing
    → (String → String)
    → (String → Value)
    → Option String
    → ℕ
    → Result (List ParsedEntry)
    → Type 0
AcceptsAll self nfc loads last idx (ok chain) =
    (objects : List Fields) (hashes hashes' : Dict String)
    → AllReadAs nfc loads chain objects
    → contents hashes idx objects ≡ ok hashes'
    → Accepts
        (validate_from self (record { expected_prev = last; decision_hashes = hashes })
          (parsed_back loads chain))
        hashes'
AcceptsAll self nfc loads last idx (err e) = Unit

module _ (nfc sha256 : String → String) (sign : Option (String → String))
    (verify : Option (String → String → Bool)) (loads : String → Value) (fit : KeysFit sign verify)
    (idempotent : (s : String) → nfc (nfc s) ≡ nfc s)
    (digests : (t : String) → nfc (sha256 t) ≡ sha256 t)
    (signatures : SignaturesArePlain nfc sign) where
  abbrev self : Hashing
  self = jcs_hashing nfc sha256 sign verify

  module _ (last : Option String) (idx : ℕ) (e : Fields) (h line : String)
      (plain : IsPlain nfc last) (hashed : self.sha256_hex (dict (candidate last e)) ≡ ok h)
      (lined : self.canonical_json (dict (sealed sign last h e)) ≡ ok line)
      (unsigned : has "entry_signature" e ≡ false) where
    chain-AcceptsAll :
        (rest : List ParsedEntry) (objects : List Fields) (hashes hashes' : Dict String)
        → AcceptsAll self nfc loads (some h) (suc idx) (ok rest)
        → AllReadAs nfc loads (written self fit idx (sealed sign last h e) line ∷ rest) objects
        → contents hashes idx objects ≡ ok hashes'
        → Accepts
            (validate_from self
              (record { expected_prev = last; decision_hashes = hashes })
              (parsed_back loads (written self fit idx (sealed sign last h e) line ∷ rest)))
            hashes'
    unfolding validate_from
    chain-AcceptsAll rest [] hashes hashes' accepted b c = absurd b
    chain-AcceptsAll rest (d ∷ objects) hashes hashes' accepted ((loaded, read), b) c =
        elim (Result-cases (check_content d hashes idx)) [
          | inr (x, m) ↦ absurd (cc (rw m at c))
          | inl (between, m) ↦
              rw
                (
                  loaded,
                  written-IsValid self fit last idx e d h line hashes between hashed lined unsigned
                      (resealed-SameSeal nfc idempotent sha256 sign verify digests signatures last e
                        h line d plain hashed lined unsigned read)
                      m,
                )
                (accepted objects between hashes' b (rw m at c))
        ]

    first-AcceptsAll :
        (r : Result (List ParsedEntry))
        → AcceptsAll self nfc loads (some h) (suc idx) r
        → AcceptsAll self nfc loads last idx
            (then_result r λ rest. ok (written self fit idx (sealed sign last h e) line ∷ rest))
    first-AcceptsAll (err x) accepted = tt
    first-AcceptsAll (ok rest) accepted =
        λ objects hashes hashes' b c. chain-AcceptsAll rest objects hashes hashes' accepted b c

  none-Accepts :
      (last : Option String) (idx : ℕ) (objects : List Fields) (hashes hashes' : Dict String)
      → AllReadAs nfc loads [] objects
      → contents hashes idx objects ≡ ok hashes'
      → Accepts
          (validate_from self (record { expected_prev = last; decision_hashes = hashes }) [])
          hashes'
  unfolding validate_from
  none-Accepts last idx [] hashes hashes' b c = cc c
  none-Accepts last idx (d ∷ objects) hashes hashes' b c = absurd b

  all-AcceptsAll :
      (last : Option String) (idx : ℕ) (entries : List Fields)
      → IsPlain nfc last
      → AreUnsigned entries
      → AcceptsAll self nfc loads last idx (append_all self last idx entries)
  unfolding append_all append_after prepare_entry
  all-AcceptsAll last idx [] plain u =
      λ objects hashes hashes' b c. none-Accepts last idx objects hashes hashes' b c
  all-AcceptsAll last idx (e ∷ entries) plain (u, us) =
      elim (Result-cases (self.sha256_hex (dict (candidate last e)))) [
        | inr (x, k) ↦ rw k tt
        | inl (h, k) ↦ elim (Result-cases (self.canonical_json (dict (sealed sign last h e)))) [
          | inr (x, l) ↦ rw (k, l) tt
          | inl (line, l) ↦
              rw (k, l)
                (first-AcceptsAll last idx e h line plain k l u
                  (append_all self (some h) (suc idx) entries)
                  (all-AcceptsAll (some h) (suc idx) entries
                    (hash_plain nfc idempotent sha256 sign verify digests signatures
                      (dict (candidate last e)) h k)
                    us))
        ]
      ]

  -- With a normalization that changes nothing the second time, nor a digest or a signature, and under
  -- keys that fit: where appending entries without a signature of their own to an empty ledger
  -- succeeds, and `json.loads` gives back each written line as an object with the same keys, in any
  -- order, and with `null` as it was, texts normalized and other values of the same canonical JSON, if
  -- the contents of the objects that are read back fit each other, then the ledger that is read back
  -- passes the check, with the signatures, and the check has seen their decisions.
  pub append_all-Accepts :
      (entries : List Fields) (chain : List ParsedEntry) (objects : List Fields)
      (hashes : Dict String)
      → append_all self none 1 entries ≡ ok chain
      → AreUnsigned entries
      → AllReadAs nfc loads chain objects
      → contents [] 1 objects ≡ ok hashes
      → Accepts (validate_parsed_entries self (parsed_back loads chain)) hashes
  append_all-Accepts entries chain objects hashes made unsigned read fits =
      (rw made at (all-AcceptsAll none 1 entries tt unsigned)) objects [] hashes read fits
