-- ===== src/Value.antt =====
-- The Python values that calls, policies and ledger entries are made of. What the code never looks
-- into is not kept: a float is its `repr`, a `bytes` its length, an object of another class that
-- class's name and the object's truth value, and a dict that has a key which is not a text is
-- `mixed_dict`.
pub mod Dict
use sudo_agent.Base.{
  ℕ, ◌≡◌, arith, eq_iff, String, Bool, true, false, not, ◌||◌, Option, none, some, List, [], ◌∷◌,
  ◌==◌, ltb, if◌then◌else◌,
}
use sudo_agent.Base.Int.{ℤ, pos, negsuc}

-- `decimal.Decimal`: (-1)^negative * coefficient * 10^exponent, or not finite.
pub data Decimal : Type 0 where
  finite : Bool → ℕ → ℤ → Decimal
  not_finite : Decimal

mutual
  pub data Value : Type 0 where
    null : Value
    bool : Bool → Value
    int : ℤ → Value
    float : String → Value
    decimal : Decimal → Value
    str : String → Value
    bytes : ℕ → Value
    list : Items → Value
    tuple : Items → Value
    dict : Fields → Value
    mixed_dict : Value
    other : String → Bool → Value

  pub data Items : Type 0 where
    nil : Items
    cons : Value → Items → Items

  pub data Fields : Type 0 where
    end : Fields
    field : String → Value → Fields → Fields

-- `isinstance(v, str)`, and the text
abbrev pub text_of : Value → Option String
text_of (str s) = some s
text_of _ = none

-- `isinstance(v, dict)`, and its entries
abbrev pub fields_of : Value → Option Fields
fields_of (dict d) = some d
fields_of _ = none

-- `v == "…"`
abbrev pub is_text : Value → String → Bool
is_text (str s) t = s == t
is_text _ t = false

-- A value that is the text `t`, by the test, is that text.
pub is_text-str : (v : Value) (t : String) → is_text v t ≡ true → v ≡ str t
is_text-str (str s) t h = ground (arith, eq_iff s t)
is_text-str null t h = absurd (cc h)
is_text-str (bool b) t h = absurd (cc h)
is_text-str (int n) t h = absurd (cc h)
is_text-str (float r) t h = absurd (cc h)
is_text-str (decimal d) t h = absurd (cc h)
is_text-str (bytes n) t h = absurd (cc h)
is_text-str (list l) t h = absurd (cc h)
is_text-str (tuple l) t h = absurd (cc h)
is_text-str (dict d) t h = absurd (cc h)
is_text-str mixed_dict t h = absurd (cc h)
is_text-str (other n b) t h = absurd (cc h)

-- `v is None`
abbrev pub is_null : Value → Bool
is_null null = true
is_null _ = false

-- A text, or `None`
abbrev pub opt_str : Option String → Value
opt_str none = null
opt_str (some s) = str s

-- `bool(v)`
abbrev pub truthy : Value → Bool
truthy null = false
truthy (bool b) = b
truthy (int (pos n)) = ltb 0 n
truthy (int (negsuc _)) = true
truthy (float r) = not (r == "0.0" || r == "-0.0")
truthy (decimal (finite _ c _)) = ltb 0 c
truthy (decimal not_finite) = true
truthy (str s) = not (s == "")
truthy (bytes n) = ltb 0 n
truthy (list nil) = false
truthy (list (cons _ _)) = true
truthy (tuple nil) = false
truthy (tuple (cons _ _)) = true
truthy (dict end) = false
truthy (dict (field _ _ _)) = true
truthy mixed_dict = true
truthy (other _ b) = b

-- `a or b`
abbrev pub or_value : Value → Value → Value
or_value a b = if truthy a then a else b

-- A dict display: entries in the order written, under keys that differ.
abbrev pub fields : List (String × Value) → Fields
fields [] = end
fields ((k, v) ∷ rest) = field k v (fields rest)
