-- ===== src/Base/Text.antt =====
-- What the source uses of `str`: `strip` and the tests on its result.
pub mod Order
use Prim.Native.Nat.{ℕ, zero, suc, ◌+◌}
use Prim.Native.Char.{Char, code}
use Prim.Native.String.{String, [], ◌∷◌}
use mathlib.Core.Bool.{Bool, true, false, ◌&&◌, ◌||◌}
use sudo_agent.Base.Tests.{ltb, leb, if◌then◌else◌}

abbrev between : ℕ → ℕ → ℕ → Bool
between lo hi c = leb lo c && leb c hi

-- `ch.isspace()`, the characters that `str.strip()` removes.
pub is_space : ℕ → Bool
is_space c =
    between 9 13 c
    || between 28 32 c
    || between 133 133 c
    || between 160 160 c
    || between 5760 5760 c
    || between 8192 8202 c
    || between 8232 8233 c
    || between 8239 8239 c
    || between 8287 8287 c
    || between 12288 12288 c

-- `not value.strip()`
unfoldable pub is_blank : String → Bool
unfolding is_space
is_blank [] = true
is_blank (c ∷ s) = is_space (code c) && is_blank s

-- `len(s)`
abbrev pub len : String → ℕ
len [] = 0
len (c ∷ s) = 1 + len s

-- `s[:n]`
abbrev pub take : ℕ → String → String
take zero s = []
take (suc n) [] = []
take (suc n) (c ∷ s) = c ∷ take n s

-- `c in s`, for the character with code `c`
abbrev pub has_char : ℕ → String → Bool
has_char c [] = false
has_char c (d ∷ s) = (leb c (code d) && leb (code d) c) || has_char c s

-- The characters with code `c`, in order
abbrev pub occurrences : ℕ → String → String
occurrences c [] = []
occurrences c (d ∷ s) = keep_code (leb c (code d) && leb (code d) c) d (occurrences c s)
  where
    keep_code : Bool → Char → String → String
    keep_code true d s = d ∷ s
    keep_code false d s = s

-- `s.lstrip()`, and what `s.rstrip()` leaves of a text that does not begin with white space
abbrev strip_left : String → String
strip_left [] = []
strip_left (c ∷ s) = left (is_space (code c)) c s (strip_left s)
  where
    left : Bool → Char → String → String → String
    left true c s rest = rest
    left false c s rest = c ∷ s

abbrev strip_right : String → String
strip_right [] = []
strip_right (c ∷ s) = right (is_space (code c)) c (strip_right s)
  where
    right : Bool → Char → String → String
    right true c [] = []
    right b c rest = c ∷ rest

-- `s.strip()`
unfoldable pub strip : String → String
unfolding is_space
strip s = strip_right (strip_left s)

-- `s.startswith(t)`
abbrev pub starts_with : String → String → Bool
starts_with s [] = true
starts_with [] (d ∷ t) = false
starts_with (c ∷ s) (d ∷ t) = leb (code c) (code d) && leb (code d) (code c) && starts_with s t

-- `t in s`
abbrev pub contains_text : String → String → Bool
contains_text [] t = starts_with [] t
contains_text (c ∷ s) t = starts_with (c ∷ s) t || contains_text s t

-- `s < t`, by the characters' codes
abbrev pub precedes : String → String → Bool
precedes [] [] = false
precedes [] (d ∷ t) = true
precedes (c ∷ s) [] = false
precedes (c ∷ s) (d ∷ t) =
    if ltb (code c) (code d) then true else if ltb (code d) (code c) then false else precedes s t
