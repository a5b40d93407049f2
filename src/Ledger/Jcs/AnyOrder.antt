-- ===== src/Ledger/Jcs/AnyOrder.antt =====
-- Canonical JSON does not depend on the order of an object's entries.
use sudo_agent.Base.{
  String, ◌≡◌, refl, sym, ◌∙◌, ap, Bool, true, false, none, List, [], ◌∷◌, ◌==◌, ◌||◌, arith,
  eq_iff, Bool-cases, inl, inr,
}
use sudo_agent.Value.{Value, dict, Fields, field}
use sudo_agent.Ledger.Jcs.{
  Member, occurs, seen_again, duplicate_key, place, sort, canonical_json, members,
}
use sudo_agent.Ledger.Jcs.Order.{place-place}

-- Lists of members in another order
data Reordered : List Member → List Member → Type 0 where
  same : (l : List Member) → Reordered l l
  keep : (m : Member) (l l' : List Member) → Reordered l l' → Reordered (m ∷ l) (m ∷ l')
  swap : (m n : Member) (l : List Member) → Reordered (m ∷ n ∷ l) (n ∷ m ∷ l)
  trans : (l l' l'' : List Member) → Reordered l l' → Reordered l' l'' → Reordered l l''

occurs-Reordered : (k : String) (l l' : List Member) → Reordered l l' → occurs k l ≡ occurs k l'
occurs-Reordered k _ _ (same l) = refl
occurs-Reordered k _ _ (keep (j, v) l l' p) = rw (occurs-Reordered k l l' p) refl
occurs-Reordered k _ _ (swap (j, v) (i, w) l) = ground arith
occurs-Reordered k _ _ (trans l l' l'' p q) =
    occurs-Reordered k l l' p ∙ occurs-Reordered k l' l'' q

-- No key occurs twice.
abbrev pub AreDistinct : List Member → Type 0
AreDistinct [] = Unit
AreDistinct ((k, r) ∷ l) = (occurs k l ≡ false) × AreDistinct l

-- None of the keys is one of those that were seen.
abbrev AreNew : List Member → List Member → Type 0
AreNew seen [] = Unit
AreNew seen ((k, r) ∷ l) = (occurs k seen ≡ false) × AreNew seen l

new_cons :
    (m : Member) (seen l : List Member)
    → AreNew (m ∷ seen) l
    → (occurs m.0 l ≡ false) × AreNew seen l
new_cons m seen [] h = (refl, tt)
new_cons (k, r) seen ((j, s) ∷ l) (h, hs) =
    let (absent, rest) = new_cons (k, r) seen l hs in
    (ground (arith, eq_iff k j, eq_iff j k), (ground arith, rest))

cons_new :
    (m : Member) (seen l : List Member) → occurs m.0 l ≡ false → AreNew seen l → AreNew (m ∷ seen) l
cons_new m seen [] o h = tt
cons_new (k, r) seen ((j, s) ∷ l) o (h, hs) =
    (ground (arith, eq_iff k j, eq_iff j k), cons_new (k, r) seen l (ground arith) hs)

pub distinct_of_seen :
    (seen l : List Member) → seen_again seen l ≡ none → AreDistinct l × AreNew seen l
distinct_of_seen seen [] h = (tt, tt)
distinct_of_seen seen ((k, r) ∷ l) h = elim (Bool-cases (occurs k seen)) [
  | inl o ↦ absurd (cc (rw o at h))
  | inr o ↦
      let (distinct, new) = distinct_of_seen ((k, r) ∷ seen) l (rw o at h) in
      let (absent, rest) = new_cons (k, r) seen l new in ((absent, distinct), (o, rest))
]

seen_of_distinct : (seen l : List Member) → AreDistinct l → AreNew seen l → seen_again seen l ≡ none
seen_of_distinct seen [] d h = refl
seen_of_distinct seen ((k, r) ∷ l) (absent, d) (o, h) =
    rw o (seen_of_distinct ((k, r) ∷ seen) l d (cons_new (k, r) seen l absent h))

none_seen : (l : List Member) → AreNew [] l
none_seen [] = tt
none_seen (m ∷ l) = (refl, none_seen l)

different : (k j : String) → (k == j) ≡ false → (j == k) ≡ false
different k j h = ground (arith, eq_iff k j, eq_iff j k)

-- Where the first two are distinct so are they the other way round.
swapped :
    (m n : Member) (l : List Member)
    → AreDistinct (m ∷ n ∷ l)
    → ((m.0 == n.0) ≡ false) × AreDistinct (n ∷ m ∷ l)
swapped m n l h =
    let (first, rest) = h in
    let (second, last) = rest in
    let apart_nm : (n.0 == m.0) ≡ false = neither (n.0 == m.0) (occurs m.0 l) first in
    let absent : occurs m.0 l ≡ false = neither_last (n.0 == m.0) (occurs m.0 l) first in
    (different n.0 m.0 apart_nm, (ground (arith, different n.0 m.0 apart_nm), (absent, last)))
  where
    neither : (a b : Bool) → (a || b) ≡ false → a ≡ false
    neither true b h = cc h
    neither false b h = refl

    neither_last : (a b : Bool) → (a || b) ≡ false → b ≡ false
    neither_last true b h = absurd (cc h)
    neither_last false b h = h

distinct-Reordered : (l l' : List Member) → Reordered l l' → AreDistinct l → AreDistinct l'
distinct-Reordered _ _ (same l) h = h
distinct-Reordered _ _ (keep m l l' p) h =
    (sym (occurs-Reordered m.0 l l' p) ∙ h.0, distinct-Reordered l l' p h.1)
distinct-Reordered _ _ (swap m n l) h = (swapped m n l h).1
distinct-Reordered _ _ (trans l l' l'' p q) h =
    distinct-Reordered l' l'' q (distinct-Reordered l l' p h)

sort-Reordered : (l l' : List Member) → Reordered l l' → AreDistinct l → sort l ≡ sort l'
sort-Reordered _ _ (same l) h = refl
sort-Reordered _ _ (keep m l l' p) h = ap (place m) (sort-Reordered l l' p h.1)
sort-Reordered _ _ (swap m n l) h = place-place m n (sort l) (swapped m n l h).0
sort-Reordered _ _ (trans l l' l'' p q) h =
    sort-Reordered l l' p h ∙ sort-Reordered l' l'' q (distinct-Reordered l l' p h)

-- Dicts with the same entries, written in another order
pub data Permutes : Fields → Fields → Type 0 where
  same : (d : Fields) → Permutes d d
  keep :
      (k : String) (v : Value) (d e : Fields) → Permutes d e → Permutes (field k v d) (field k v e)
  swap :
      (k j : String) (v w : Value) (d : Fields)
      → Permutes (field k v (field j w d)) (field j w (field k v d))
  trans : (d e f : Fields) → Permutes d e → Permutes e f → Permutes d f

module _ (nfc : String → String) where
  members-Reordered : (d e : Fields) → Permutes d e → Reordered (members nfc d) (members nfc e)
  unfolding canonical_json
  members-Reordered _ _ (Permutes.same d) = Reordered.same _
  members-Reordered _ _ (Permutes.keep k v d e p) =
      Reordered.keep (nfc k, canonical_json nfc v) _ _ (members-Reordered d e p)
  members-Reordered _ _ (Permutes.swap k j v w d) = Reordered.swap _ _ _
  members-Reordered _ _ (Permutes.trans d e f p q) =
      Reordered.trans _ _ _ (members-Reordered d e p) (members-Reordered e f q)

  -- Two dicts with the same entries in any two orders, no two keys of which normalize to one, have the
  -- same canonical JSON, or fail with the same error.
  pub canonical_json-Permutes :
      (d e : Fields)
      → Permutes d e
      → duplicate_key (members nfc d) ≡ none
      → canonical_json nfc (dict d) ≡ canonical_json nfc (dict e)
  unfolding canonical_json
  canonical_json-Permutes d e p h =
      let r = members-Reordered d e p in
      let distinct = (distinct_of_seen [] (members nfc d) h).0 in
      let h' =
        seen_of_distinct [] (members nfc e) (distinct-Reordered _ _ r distinct) (none_seen _) in
      rw (h, h', sort-Reordered _ _ r distinct) refl
