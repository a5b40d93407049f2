-- ===== src/Ledger/Chain/Tamper.antt =====
-- Two ledgers that pass the check and end in the same hash hold the same entries.
use sudo_agent.Base.{
  inl, inr, ℕ, String, ◌≡◌, refl, sym, ◌∙◌, false, Option, none, some, List, [], ◌∷◌, arith, eq_iff,
  ◌==◌, ap,
}
use sudo_agent.Base.Dict.{Dict}
use sudo_agent.Value.{
  Value, null, bool, int, float, decimal, str, bytes, list, tuple, dict, mixed_dict, other, Fields,
  end, opt_str, fields_of, text_of,
}
use sudo_agent.Value.Dict.{get, set, pop, get-set}
use sudo_agent.Ledger.Jcs.{Result, ok, err, then_result}
use sudo_agent.Ledger.Chain.Appended.{Result-cases}
use sudo_agent.Ledger.Chain.{
  ParsedEntry, Verifier, Hashing, body, check, check_row, check_raw, check_content, check_signature,
  settle, require, need, check_prev, validate_as, validate_object, validate_from,
  validate_parsed_entries,
}

-- The hashed part of each entry, the last entry first, in front of those of `before`.
abbrev or_end : Option Fields → Fields
or_end none = end
or_end (some d) = d

abbrev pub bodies_onto : List Fields → List ParsedEntry → List Fields
bodies_onto before [] = before
bodies_onto before (p ∷ entries) = bodies_onto (body (or_end (fields_of p.entry)) ∷ before) entries

-- A chain that ends in the hash: each body names the hash of the one before.
pub data Chained (self : Hashing) : Option String → List Fields → Type 0 where
  start : Chained self none []
  link :
      (prev : Option String) (h : String) (b : Fields) (before : List Fields)
      → Chained self prev before
      → get "prev_entry_hash" b ≡ opt_str prev
      → self.sha256_hex (dict b) ≡ ok h
      → Chained self (some h) (b ∷ before)

-- No two different bodies, one of each ledger, have the same hash.
abbrev pub NoneCollides : Hashing → Fields → List Fields → Type 0
NoneCollides self b [] = Unit
NoneCollides self b (c ∷ cs) =
    (self.sha256_hex (dict b) ≡ self.sha256_hex (dict c) → b ≡ c) × NoneCollides self b cs

abbrev pub CollisionFree : Hashing → List Fields → List Fields → Type 0
CollisionFree self [] cs = Unit
CollisionFree self (b ∷ bs) cs = NoneCollides self b cs × CollisionFree self bs cs

ok-inj : {A : Type 0} (a b : A) → ok a ≡ ok b → a ≡ b
ok-inj a b h = cc h

bind-ok :
    {A B : Type 0} (r : Result A) (f : A → Result B) (b : B)
    → then_result r f ≡ ok b
    → (a : A) × (r ≡ ok a) × (f a ≡ ok b)
bind-ok (ok a) f b h = (a, refl, h)
bind-ok (err e) f b h = absurd (cc h)

require-ok : (s t : String) (m : String) (u : Unit) → require (s == t) m ≡ ok u → s ≡ t
require-ok s t m u h = ground (arith, eq_iff s t)

check_prev-ok :
    (v : Value) (expected : Option String) (idx : ℕ) (u : Unit)
    → check_prev v expected idx ≡ ok u
    → v ≡ opt_str expected
check_prev-ok null none idx u h = refl
check_prev-ok (str s) (some t) idx u h = rw (require-ok s t _ u h) refl
check_prev-ok null (some t) idx u h = absurd (cc h)
check_prev-ok (str s) none idx u h = absurd (cc h)
check_prev-ok (bool b) expected idx u h = absurd (cc h)
check_prev-ok (int n) expected idx u h = absurd (cc h)
check_prev-ok (float r) expected idx u h = absurd (cc h)
check_prev-ok (decimal d) expected idx u h = absurd (cc h)
check_prev-ok (bytes n) expected idx u h = absurd (cc h)
check_prev-ok (list l) expected idx u h = absurd (cc h)
check_prev-ok (tuple l) expected idx u h = absurd (cc h)
check_prev-ok (dict d) expected idx u h = absurd (cc h)
check_prev-ok mixed_dict expected idx u h = absurd (cc h)
check_prev-ok (other n b) expected idx u h = absurd (cc h)

get-pop : (k j : String) (d : Fields) → (j == k) ≡ false → get k (pop j d) ≡ get k d
get-pop k j end h = refl
get-pop k j (Fields.field i w d) h =
    ground (arith, eq_iff i k, eq_iff i j, eq_iff j k, get-pop k j d h)

prev-body : (e : Fields) → get "prev_entry_hash" (body e) ≡ get "prev_entry_hash" e
prev-body e =
    get-pop "prev_entry_hash" "entry_signature" (set "entry_hash" null e) refl
    ∙ get-set "entry_hash" "prev_entry_hash" null e

module _ (self : Hashing) where
  settled :
      (v v' : Verifier) (p : ParsedEntry) (e : Fields) (hashes : Dict String)
      (calculated actual : String)
      → settle self v p e hashes calculated actual ≡ ok v'
      → v'.expected_prev ≡ some calculated
  settled v v' p e hashes calculated actual valid =
      elim (Result-cases (check (calculated == actual) "entry_hash mismatch at entry " p.index)) [
        | inr (x, k) ↦ absurd (cc (rw k at valid))
        | inl (u, k) ↦
            elim (Result-cases (
              check_row p.row_entry_hash (str actual) "entry_hash column mismatch at entry "
                p.index)) [
                  | inr (x, l) ↦ absurd (cc (rw (k, l) at valid))
                  | inl (u2, l) ↦
                      elim (Result-cases (
                        check_row p.row_prev_hash (get "prev_entry_hash" e)
                          "prev_entry_hash column mismatch at entry " p.index)) [
                            | inr (x, m) ↦ absurd (cc (rw (k, l, m) at valid))
                            | inl (u3, m) ↦
                                elim (Result-cases (
                                  check_signature self.verify (get "entry_signature" e) actual
                                    p.index)) [
                                      | inr (x, n) ↦ absurd (cc (rw (k, l, m, n) at valid))
                                      | inl (u4, n) ↦
                                          finish (rw (k, l, m, n) at valid)
                                            (require-ok calculated actual _ u k)
                                    ]
                          ]
                ]
      ]
    where
      after : String → Verifier
      after a = record { expected_prev = some a; decision_hashes = hashes }

      finish : ok (after actual) ≡ ok v' → calculated ≡ actual → v'.expected_prev ≡ some calculated
      finish g h = sym (ap (λ w. w.expected_prev) (ok-inj _ v' g)) ∙ ap some (sym h)

  -- What a turn that does not raise has found.
  turn-ok :
      (v v' : Verifier) (p : ParsedEntry) (e : Fields)
      → validate_object self v p e ≡ ok v'
      → (get "prev_entry_hash" e ≡ opt_str v.expected_prev)
        × ((h : String) × (self.sha256_hex (dict (body e)) ≡ ok h) × (v'.expected_prev ≡ some h))
  turn-ok v v' p e valid = elim (Result-cases (check_raw self p.raw e p.index)) [
    | inr (x, k) ↦ absurd (cc (rw k at valid))
    | inl (u, k) ↦ elim (Result-cases (check_content e v.decision_hashes p.index)) [
      | inr (x, l) ↦ absurd (cc (rw (k, l) at valid))
      | inl (hashes, l) ↦
          elim (Result-cases (check_prev (get "prev_entry_hash" e) v.expected_prev p.index)) [
            | inr (x, m) ↦ absurd (cc (rw (k, l, m) at valid))
            | inl (u2, m) ↦ elim (Result-cases (self.sha256_hex (dict (body e)))) [
              | inr (x, n) ↦ absurd (cc (rw (k, l, m, n) at valid))
              | inl (h, n) ↦
                  elim (Result-cases
                    (need (text_of (get "entry_hash" e)) "entry_hash missing at entry " p.index)) [
                      | inr (x, o) ↦ absurd (cc (rw (k, l, m, n, o) at valid))
                      | inl (actual, o) ↦ (
                        check_prev-ok _ v.expected_prev p.index u2 m,
                        (h, n, settled v v' p e hashes h actual (rw (k, l, m, n, o) at valid)),
                      )
                    ]
            ]
          ]
    ]
  ]

  linked :
      (v v' : Verifier) (p : ParsedEntry) (before : List Fields) (o : Option Fields)
      → validate_as self v p o ≡ ok v'
      → Chained self v.expected_prev before
      → Chained self v'.expected_prev (body (or_end o) ∷ before)
  linked v v' p before none valid c = absurd (cc valid)
  linked v v' p before (some e) valid c = joined (turn-ok v v' p e valid)
    where
      joined :
          (get "prev_entry_hash" e ≡ opt_str v.expected_prev)
            × ((h : String) × (self.sha256_hex (dict (body e)) ≡ ok h)
                × (v'.expected_prev ≡ some h))
          → Chained self v'.expected_prev (body e ∷ before)
      joined (prev, (h, hashed, last)) =
          rw last (link v.expected_prev h (body e) before c (prev-body e ∙ prev) hashed)

  pub validate_from-Chained :
      (v v' : Verifier) (entries : List ParsedEntry) (before : List Fields)
      → validate_from self v entries ≡ ok v'
      → Chained self v.expected_prev before
      → Chained self v'.expected_prev (bodies_onto before entries)
  unfolding validate_from
  validate_from-Chained v v' [] before valid c = rw (sym (ok-inj v v' valid)) c
  validate_from-Chained v v' (p ∷ entries) before valid c =
      let (w, first, rest) = bind-ok _ _ v' valid in
      validate_from-Chained w v' entries _ rest (linked v w p before (fields_of p.entry) first c)

  some-inj : (a b : String) → some a ≡ some b → a ≡ b
  some-inj a b h = cc h

  cons-eq : (b c : Fields) (bs cs : List Fields) → b ≡ c → bs ≡ cs → (b ∷ bs) ≡ (c ∷ cs)
  cons-eq b c bs cs h g = cc (h, g)

  dropped :
      (bs : List Fields) (c : Fields) (cs : List Fields)
      → CollisionFree self bs (c ∷ cs)
      → CollisionFree self bs cs
  dropped [] c cs f = tt
  dropped (b ∷ bs) c cs ((e, f), g) = (f, dropped bs c cs g)

  opt_str-inj : (a b : Option String) → opt_str a ≡ opt_str b → a ≡ b
  opt_str-inj none none h = refl
  opt_str-inj none (some s) h = absurd (cc h)
  opt_str-inj (some s) none h = absurd (cc h)
  opt_str-inj (some s) (some t) h = cc h

  Chained-unique :
      (a b : Option String) (bs cs : List Fields)
      → Chained self a bs
      → Chained self b cs
      → a ≡ b
      → CollisionFree self bs cs
      → bs ≡ cs
  Chained-unique _ _ _ _ start start h f = refl
  Chained-unique _ _ _ _ start (link prev k c cs v e g) h f = absurd (cc h)
  Chained-unique _ _ _ _ (link prev k b bs v e g) start h f = absurd (cc h)
  Chained-unique _ _ _ _ (link prev k b bs v e g) (link prev' k' c cs v' e' g') h ((same, f), fs) =
      cons-eq b c bs cs b≡c (
        Chained-unique prev prev' bs cs v v'
          (opt_str-inj prev prev' (sym e ∙ ap (get "prev_entry_hash") b≡c ∙ e'))
          (dropped bs c cs fs))
    where
      b≡c : b ≡ c
      b≡c = same (g ∙ ap ok (some-inj k k' h) ∙ sym g')

  -- Two streams that both pass the check and end in the same hash, with no two different hashed parts
  -- of theirs under one hash: entry by entry their hashed parts are the same.
  pub tamper_evident :
      (v w : Verifier) (entries others : List ParsedEntry)
      → validate_parsed_entries self entries ≡ ok v
      → validate_parsed_entries self others ≡ ok w
      → v.expected_prev ≡ w.expected_prev
      → CollisionFree self (bodies_onto [] entries) (bodies_onto [] others)
      → bodies_onto [] entries ≡ bodies_onto [] others
  tamper_evident v w entries others valid valid' same free =
      Chained-unique _ _ _ _ (validate_from-Chained _ v entries [] valid start)
        (validate_from-Chained _ w others [] valid' start) same free
