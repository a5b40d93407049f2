-- ===== src/Ledger/Jcs.antt =====
-- ledger/jcs.py: canonical JSON. `nfc` is `unicodedata.normalize("NFC", …)`, and `sha256` the hex
-- digest of a text's UTF-8 bytes.
pub mod Order
pub mod AnyOrder
pub mod OneLine
use Prim.Native.String.{◌++◌ as ◌<>◌}
use sudo_agent.Base.{
  String, Bool, true, false, Option, none, some, List, [], ◌∷◌, ◌==◌, ◌||◌, leb, if◌then◌else◌,
}
use sudo_agent.Base.Text.{precedes}
use sudo_agent.Value.{
  Decimal, finite, not_finite, Value, null, bool, int, float, decimal, str, bytes, list, tuple,
  dict, mixed_dict, other, Items, nil, cons, Fields, end, field,
}
use sudo_agent.Ledger.Numerals.{show_int, json_string, repr_text, fixed_point}

-- `CanonicalizationError` and `LedgerVerificationError`, with their messages.
pub data Error : Type 0 where
  canonicalization verification : String → Error

pub data Result (A : Type 0) : Type 0 where
  ok : A → Result A
  err : Error → Result A

abbrev pub then_result : {A B : Type 0} → Result A → (A → Result B) → Result B
then_result (ok a) f = f a
then_result (err e) f = err e

-- `_canonical_decimal`
unfoldable pub canonical_decimal : Decimal → Result String
canonical_decimal not_finite = err (canonicalization "NaN/Infinity are rejected")
canonical_decimal (finite negative c e) =
    if leb c 0 then ok "0" else ok ((if negative then "-" else "") <> fixed_point c e)

-- The rest of a joined text, behind its first part
abbrev join_after : String → List String → String
join_after s [] = s
join_after s (t ∷ rest) = s <> "," <> join_after t rest

-- `",".join(parts)`
abbrev pub join : List String → String
join [] = ""
join (s ∷ rest) = join_after s rest

-- Each value that could be written, or the error of the first that could not.
abbrev pub gather : List (Result String) → Result (List String)
gather [] = ok []
gather (r ∷ rest) = then_result r λ s. then_result (gather rest) λ l. ok (s ∷ l)

-- An entry of an object: its normalized key and its value's text.
abbrev pub Member : Type 0
Member = String × Result String

-- A key that occurs twice
abbrev pub occurs : String → List Member → Bool
occurs k [] = false
occurs k ((j, _) ∷ l) = j == k || occurs k l

-- The keys that were seen before a member, in any order
abbrev pub seen_again : List Member → List Member → Option String
seen_again seen [] = none
seen_again seen ((k, r) ∷ l) = if occurs k seen then some k else seen_again ((k, r) ∷ seen) l

-- The first key that is already among the ones before it
abbrev pub duplicate_key : List Member → Option String
duplicate_key l = seen_again [] l

-- `sorted(…)`, by insertion
abbrev pub place : Member → List Member → List Member
place m [] = m ∷ []
place (k, v) ((j, w) ∷ l) =
    let rest = place (k, v) l in if precedes j k then (j, w) ∷ rest else (k, v) ∷ (j, w) ∷ l

abbrev pub sort : List Member → List Member
sort [] = []
sort (m ∷ l) = place m (sort l)

abbrev pub member_texts : List Member → List (Result String)
member_texts [] = []
member_texts ((k, r) ∷ l) = then_result r (λ t. ok (json_string k <> ":" <> t)) ∷ member_texts l

abbrev pub braces : List String → Result String
braces l = ok ("{" <> join l <> "}")

abbrev pub brackets : List String → Result String
brackets l = ok ("[" <> join l <> "]")

-- The text of an object with the given members.
abbrev pub object_text : Option String → List Member → Result String
object_text (some k) members =
    err (canonicalization ("duplicate key after NFC normalization: " <> repr_text k))
object_text none members = then_result (gather (member_texts (sort members))) braces

module _ (nfc : String → String) where
  unfoldable mutual
    -- `_canonical_json`
    pub canonical_json : Value → Result String
    canonical_json null = ok "null"
    canonical_json (bool true) = ok "true"
    canonical_json (bool false) = ok "false"
    canonical_json (int n) = ok (show_int n)
    canonical_json (float r) =
        err (canonicalization "floats are rejected; use Decimal for exact numbers")
    canonical_json (decimal d) = canonical_decimal d
    canonical_json (str s) = ok (json_string (nfc s))
    canonical_json (list l) = then_result (gather (items_texts l)) brackets
    canonical_json (tuple l) = then_result (gather (items_texts l)) brackets
    canonical_json (dict d) = object_text (duplicate_key (members d)) (members d)
    canonical_json mixed_dict = err (canonicalization "object keys must be strings")
    canonical_json (bytes n) = err (canonicalization "type bytes is not JSON-serializable")
    canonical_json (other name b) =
        err (canonicalization ("type " <> name <> " is not JSON-serializable"))

    pub items_texts : Items → List (Result String)
    items_texts nil = []
    items_texts (cons v l) = canonical_json v ∷ items_texts l

    pub members : Fields → List Member
    members end = []
    members (field k v d) = (nfc k, canonical_json v) ∷ members d

  module _ (sha256 : String → String) where
    -- `sha256_hex`
    unfoldable pub sha256_hex : Value → Result String
    sha256_hex v = then_result (canonical_json v) λ text. ok (sha256 text)
