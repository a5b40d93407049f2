-- ===== src/Ledger/Jcs/OneLine.antt =====
-- Canonical JSON stands on one line: it holds no control character.
use Prim.Native.String.{String, ◌++◌ as ◌<>◌}
use sudo_agent.Base.{
  ◌≡◌, refl, Bool, true, false, Option, none, some, List, [], ◌∷◌, leb, if◌then◌else◌, Bool-cases,
  inl, inr,
}
use sudo_agent.Value.{
  Decimal, finite, not_finite, Value, null, bool, int, float, decimal, str, bytes, list, tuple,
  dict, mixed_dict, other, Items, nil, cons, Fields, end, field,
}
use sudo_agent.Ledger.Numerals.{json_string, fixed_point}
use sudo_agent.Ledger.Numerals.Plain.{
  Plain, Plain-append, show_int-Plain, json_string-Plain, fixed_point-Plain,
}
use sudo_agent.Ledger.Jcs.{
  Result, ok, err, then_result, canonical_decimal, join_after, join, gather, Member, duplicate_key,
  place, sort, member_texts, braces, object_text, canonical_json, items_texts, members, precedes,
}

-- A text without control characters, if there is one
abbrev pub GivesPlain : Result String → Type 0
GivesPlain (ok t) = Plain t
GivesPlain (err e) = Unit

abbrev AreAll : List (Result String) → Type 0
AreAll [] = Unit
AreAll (r ∷ l) = GivesPlain r × AreAll l

abbrev AreMembers : List Member → Type 0
AreMembers [] = Unit
AreMembers ((k, r) ∷ l) = GivesPlain r × AreMembers l

abbrev ArePlain : List String → Type 0
ArePlain [] = Unit
ArePlain (t ∷ l) = Plain t × ArePlain l

join_after-Plain : (s : String) (l : List String) → Plain s → ArePlain l → Plain (join_after s l)
join_after-Plain s [] h hs = h
join_after-Plain s (t ∷ l) h (k, ks) =
    Plain-append s ("," <> join_after t l) h
      (Plain-append "," (join_after t l) refl (join_after-Plain t l k ks))

join-Plain : (l : List String) → ArePlain l → Plain (join l)
join-Plain [] h = refl
join-Plain (s ∷ l) (h, hs) = join_after-Plain s l h hs

abbrev GivePlain : Result (List String) → Type 0
GivePlain (ok l) = ArePlain l
GivePlain (err e) = Unit

put_first-GivePlain :
    (t : String) (r : Result (List String))
    → Plain t
    → GivePlain r
    → GivePlain (then_result r λ l. ok (t ∷ l))
put_first-GivePlain t (ok l) h hs = (h, hs)
put_first-GivePlain t (err e) h hs = tt

gather-GivePlain : (l : List (Result String)) → AreAll l → GivePlain (gather l)
gather-GivePlain [] h = tt
gather-GivePlain (ok t ∷ l) (h, hs) = put_first-GivePlain t (gather l) h (gather-GivePlain l hs)
gather-GivePlain (err e ∷ l) h = tt

wrapped-GivesPlain :
    (open_ close : String) (r : Result (List String))
    → Plain open_
    → Plain close
    → GivePlain r
    → GivesPlain (then_result r λ l. ok (open_ <> join l <> close))
wrapped-GivesPlain o c (ok l) h k hs =
    Plain-append o (join l <> c) h (Plain-append (join l) c (join-Plain l hs) k)
wrapped-GivesPlain o c (err e) h k hs = tt

place-AreMembers :
    (m : Member) (l : List Member) → GivesPlain m.1 → AreMembers l → AreMembers (place m l)
place-AreMembers (k, r) [] h hs = (h, hs)
place-AreMembers (k, r) ((j, w) ∷ l) h (hw, hs) = elim (Bool-cases (precedes j k)) [
  | inl e ↦ rw e (hw, place-AreMembers (k, r) l h hs)
  | inr e ↦ rw e (h, (hw, hs))
]

sort-AreMembers : (l : List Member) → AreMembers l → AreMembers (sort l)
sort-AreMembers [] h = tt
sort-AreMembers ((k, r) ∷ l) (h, hs) = place-AreMembers (k, r) (sort l) h (sort-AreMembers l hs)

member_text-GivesPlain :
    (k : String) (r : Result String)
    → GivesPlain r
    → GivesPlain (then_result r λ t. ok (json_string k <> ":" <> t))
member_text-GivesPlain k (ok t) h =
    Plain-append (json_string k) (":" <> t) (json_string-Plain k) (Plain-append ":" t refl h)
member_text-GivesPlain k (err e) h = tt

member_texts-AreAll : (l : List Member) → AreMembers l → AreAll (member_texts l)
member_texts-AreAll [] h = tt
member_texts-AreAll ((k, r) ∷ l) (h, hs) = (member_text-GivesPlain k r h, member_texts-AreAll l hs)

object_text-GivesPlain :
    (duplicate : Option String) (l : List Member)
    → AreMembers l
    → GivesPlain (object_text duplicate l)
object_text-GivesPlain (some k) l h = tt
object_text-GivesPlain none l h =
    wrapped-GivesPlain "{" "}" (gather (member_texts (sort l))) refl refl (
      gather-GivePlain (member_texts (sort l)) (member_texts-AreAll (sort l) (sort-AreMembers l h)))

signed-Plain :
    (negative : Bool) (t : String) → Plain t → Plain ((if negative then "-" else "") <> t)
signed-Plain true t h = Plain-append "-" t refl h
signed-Plain false t h = Plain-append "" t refl h

canonical_decimal-GivesPlain : (d : Decimal) → GivesPlain (canonical_decimal d)
unfolding canonical_decimal
canonical_decimal-GivesPlain not_finite = tt
canonical_decimal-GivesPlain (finite negative c e) = elim (Bool-cases (leb c 0)) [
  | inl h ↦ rw h refl
  | inr h ↦ rw h (signed-Plain negative (fixed_point c e) (fixed_point-Plain c e))
]

module _ (nfc : String → String) where
  mutual
    unfolding canonical_json

    value-GivesPlain : (v : Value) → GivesPlain (canonical_json nfc v)
    value-GivesPlain null = refl
    value-GivesPlain (bool true) = refl
    value-GivesPlain (bool false) = refl
    value-GivesPlain (int n) = show_int-Plain n
    value-GivesPlain (float r) = tt
    value-GivesPlain (decimal d) = canonical_decimal-GivesPlain d
    value-GivesPlain (str s) = json_string-Plain (nfc s)
    value-GivesPlain (list l) =
        wrapped-GivesPlain "[" "]" (gather (items_texts nfc l)) refl refl
          (gather-GivePlain (items_texts nfc l) (items-AreAll l))
    value-GivesPlain (tuple l) =
        wrapped-GivesPlain "[" "]" (gather (items_texts nfc l)) refl refl
          (gather-GivePlain (items_texts nfc l) (items-AreAll l))
    value-GivesPlain (dict d) =
        object_text-GivesPlain (duplicate_key (members nfc d)) (members nfc d) (fields-AreMembers d)
    value-GivesPlain mixed_dict = tt
    value-GivesPlain (bytes n) = tt
    value-GivesPlain (other name b) = tt

    items-AreAll : (l : Items) → AreAll (items_texts nfc l)
    items-AreAll nil = tt
    items-AreAll (cons v l) = (value-GivesPlain v, items-AreAll l)

    fields-AreMembers : (d : Fields) → AreMembers (members nfc d)
    fields-AreMembers end = tt
    fields-AreMembers (field k v d) = (value-GivesPlain v, fields-AreMembers d)

  -- No canonical JSON, of any value, has a control character in it: no newline and no carriage return,
  -- so that an entry is one line of the ledger.
  pub canonical_json-Plain : (v : Value) (t : String) → canonical_json nfc v ≡ ok t → Plain t
  canonical_json-Plain v t h = rw h at (value-GivesPlain v)

  object_text-Braced :
      (duplicate : Option String) (l : List Member) (t : String)
      → object_text duplicate l ≡ ok t
      → (inner : String) × (t ≡ "{" <> inner <> "}")
  object_text-Braced (some k) l t h = absurd (cc h)
  object_text-Braced none l t h = braced (gather (member_texts (sort l))) h
    where
      braced :
          (r : Result (List String))
          → then_result r braces ≡ ok t
          → (inner : String) × (t ≡ "{" <> inner <> "}")
      braced (ok parts) e = (join parts, cc e)
      braced (err x) e = absurd (cc e)

  pub canonical_json-Braced :
      (d : Fields) (t : String)
      → canonical_json nfc (dict d) ≡ ok t
      → (inner : String) × (t ≡ "{" <> inner <> "}")
  unfolding canonical_json
  canonical_json-Braced d t h =
      object_text-Braced (duplicate_key (members nfc d)) (members nfc d) t h
