-- ===== src/Ledger/Numerals.antt =====
-- ledger/jcs.py: the texts of numbers and strings, `str` of an integer, `json.dumps` of a string and
-- the digits of a `Decimal`.
pub mod Plain
use Prim.Native.Nat.{ℕ, zero, suc, ◌+◌, ◌-◌, ◌/◌, ◌%◌, ◌^◌}
use Prim.Native.Char.{Char, code}
use Prim.Native.String.{String, [], ◌∷◌, ◌++◌ as ◌<>◌, count}
use mathlib.Core.Bool.{Bool, true, false, not, ◌&&◌, ◌||◌}
use sudo_agent.Base.{ltb, leb, if◌then◌else◌}
use sudo_agent.Base.Int.{ℤ, pos, negsuc}

abbrev is_code : Char → ℕ → Bool
is_code c n = leb (code c) n && leb n (code c)

-- The character at a position, as a text.
abbrev nth : ℕ → String → String
nth n [] = ""
nth zero (c ∷ s) = c ∷ []
nth (suc n) (c ∷ s) = nth n s

abbrev digit : ℕ → String
digit n = nth n "0123456789abcdef"

-- The decimal digits, on fuel: a number has at most as many digits as it is itself, and one more.
digits : ℕ → ℕ → String
digits zero n = digit n
digits (suc fuel) n =
    let rest = digits fuel (n / 10) in if ltb n 10 then digit n else rest <> digit (n % 10)

-- `str(n)`
unfoldable pub show_nat : ℕ → String
unfolding digits
show_nat n = digits n n

abbrev pub show_int : ℤ → String
show_int (pos n) = show_nat n
show_int (negsuc n) = "-" <> show_nat (n + 1)

-- The characters that `json.dumps` escapes.
abbrev escape_char : Char → String
escape_char c =
    if is_code c 34
    then "\\\""
    else if is_code c 92
    then "\\\\"
    else if is_code c 8
    then "\\b"
    else if is_code c 9
    then "\\t"
    else if is_code c 10
    then "\\n"
    else if is_code c 12
    then "\\f"
    else if is_code c 13
    then "\\r"
    else if ltb (code c) 32
    then "\\u00" <> digit (code c / 16) <> digit (code c % 16)
    else c ∷ []

abbrev pub escape : String → String
escape [] = ""
escape (c ∷ s) = escape_char c <> escape s

-- `json.dumps(s, ensure_ascii=False)`
unfoldable pub json_string : String → String
json_string s = "\"" <> escape s <> "\""

-- A text holds a character.
abbrev holds : ℕ → String → Bool
holds n [] = false
holds n (c ∷ s) = is_code c n || holds n s

-- The characters that `repr` of a text escapes between quotes `q`; those from U+0080 on are taken as
-- printable.
abbrev repr_char : ℕ → Char → String
repr_char q c =
    if is_code c 92
    then "\\\\"
    else if is_code c q
    then "\\" <> (c ∷ [])
    else if is_code c 9
    then "\\t"
    else if is_code c 10
    then "\\n"
    else if is_code c 13
    then "\\r"
    else if ltb (code c) 32 || is_code c 127
    then "\\x" <> digit (code c / 16) <> digit (code c % 16)
    else c ∷ []

abbrev repr_chars : ℕ → String → String
repr_chars q [] = ""
repr_chars q (c ∷ s) = repr_char q c <> repr_chars q s

-- `repr(s)`, in double quotes if the text holds a single quote and no double one
abbrev pub repr_text : String → String
repr_text s =
    if holds 39 s && not (holds 34 s)
    then "\"" <> repr_chars 34 s <> "\""
    else "'" <> repr_chars 39 s <> "'"

abbrev pub zeros : ℕ → String
zeros zero = ""
zeros (suc n) = "0" <> zeros n

-- A character, unless it is a zero with nothing behind it
abbrev strip_one : Char → String → String
strip_one c [] = if is_code c 48 then "" else c ∷ []
strip_one c (d ∷ r) = c ∷ (d ∷ r)

-- `s.rstrip("0")`
abbrev strip_zeros : String → String
strip_zeros [] = ""
strip_zeros (c ∷ s) = strip_one c (strip_zeros s)

-- A point in front of what is left, `s.rstrip(".")` where nothing is.
abbrev pointed : String → String
pointed [] = ""
pointed (c ∷ s) = "." <> (c ∷ s)

-- The part behind the point, of `k` digits, without trailing zeros and without a bare point.
abbrev pub fraction : ℕ → String → String
fraction k s = pointed (strip_zeros (zeros (k - count s) <> s))

-- The digits of a coefficient and an exponent, without exponent notation.
abbrev pub fixed_point : ℕ → ℤ → String
fixed_point c (pos e) = show_nat c <> zeros e
fixed_point c (negsuc e) =
    show_nat (c / 10 ^ (e + 1)) <> fraction (e + 1) (show_nat (c % 10 ^ (e + 1)))
