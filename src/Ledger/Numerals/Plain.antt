-- ===== src/Ledger/Numerals/Plain.antt =====
-- The texts of numbers and strings hold no control character.
use Prim.Native.Nat.{ℕ, zero, suc, ◌/◌, ◌%◌, ◌+◌, ◌-◌, ◌^◌}
use Prim.Native.Char.{Char, code}
use Prim.Native.String.{String, [] as empty, ◌∷◌ as ◌▸◌, ◌++◌ as ◌<>◌, count}
use text.Mathlib.TextLemmas.{nil-append, cons-append}
use sudo_agent.Base.{
  ◌≡◌, refl, Bool, true, false, ◌&&◌, arith, leb, ltb, if◌then◌else◌, Bool-cases, inl, inr,
}
use sudo_agent.Base.Int.{ℤ, pos, negsuc}
use sudo_agent.Ledger.Numerals.{
  digits, show_nat, show_int, escape, json_string, zeros, fraction, fixed_point, nth, digit,
  escape_char, strip_zeros, strip_one, pointed, is_code,
}

-- No character below the space
abbrev pub is_plain : String → Bool
is_plain empty = true
is_plain (c ▸ s) = leb 32 (code c) && is_plain s

abbrev pub Plain : String → Type 0
Plain s = is_plain s ≡ true

pub Plain-append : (s t : String) → Plain s → Plain t → Plain (s <> t)
Plain-append empty t h k = rw nil-append k
Plain-append (c ▸ s) t h k = rw cons-append (ground (arith, Plain-append s t))

nth-Plain : (n : ℕ) (s : String) → Plain s → Plain (nth n s)
nth-Plain n empty h = refl
nth-Plain zero (c ▸ s) h = ground arith
nth-Plain (suc n) (c ▸ s) h = nth-Plain n s (ground arith)

digit-Plain : (n : ℕ) → Plain (digit n)
digit-Plain n = nth-Plain n "0123456789abcdef" refl

if-Plain : (b : Bool) (s t : String) → Plain s → Plain t → Plain (if b then s else t)
if-Plain true s t h k = h
if-Plain false s t h k = k

digits-Plain : (fuel n : ℕ) → Plain (digits fuel n)
unfolding digits
digits-Plain zero n = digit-Plain n
digits-Plain (suc fuel) n =
    if-Plain (ltb n 10) (digit n) (digits fuel (n / 10) <> digit (n % 10)) (digit-Plain n) (
      Plain-append (digits fuel (n / 10)) (digit (n % 10)) (digits-Plain fuel (n / 10))
        (digit-Plain (n % 10)))

pub show_nat-Plain : (n : ℕ) → Plain (show_nat n)
unfolding show_nat
show_nat-Plain n = digits-Plain n n

pub show_int-Plain : (n : ℤ) → Plain (show_int n)
show_int-Plain (pos n) = show_nat-Plain n
show_int-Plain (negsuc n) = Plain-append "-" (show_nat (n + 1)) refl (show_nat-Plain (n + 1))

zeros-Plain : (n : ℕ) → Plain (zeros n)
zeros-Plain zero = refl
zeros-Plain (suc n) = Plain-append "0" (zeros n) refl (zeros-Plain n)

control-Plain : (n m : ℕ) → Plain ("\\u00" <> digit n <> digit m)
control-Plain n m =
    Plain-append "\\u00" (digit n <> digit m) refl
      (Plain-append (digit n) (digit m) (digit-Plain n) (digit-Plain m))

unescaped-Plain :
    (c : Char)
    → Plain (
        if ltb (code c) 32
        then "\\u00" <> digit (code c / 16) <> digit (code c % 16)
        else c ▸ empty)
unescaped-Plain c = elim (Bool-cases (ltb (code c) 32)) [
  | inl low ↦ rw low (control-Plain (code c / 16) (code c % 16))
  | inr high ↦ rw high (ground arith)
]

escape_char-Plain : (c : Char) → Plain (escape_char c)
escape_char-Plain c = if-Plain (is_code c 34) "\\\"" _ refl (
    if-Plain (is_code c 92) "\\\\" _ refl (
      if-Plain (is_code c 8) "\\b" _ refl (
        if-Plain (is_code c 9) "\\t" _ refl (
          if-Plain (is_code c 10) "\\n" _ refl (
            if-Plain (is_code c 12) "\\f" _ refl
              (if-Plain (is_code c 13) "\\r" _ refl (unescaped-Plain c)))))))

escape-Plain : (s : String) → Plain (escape s)
escape-Plain empty = refl
escape-Plain (c ▸ s) =
    Plain-append (escape_char c) (escape s) (escape_char-Plain c) (escape-Plain s)

pub json_string-Plain : (s : String) → Plain (json_string s)
unfolding json_string
json_string-Plain s =
    Plain-append "\"" (escape s <> "\"") refl (Plain-append (escape s) "\"" (escape-Plain s) refl)

strip_one-Plain : (c : Char) (r : String) → Plain (c ▸ empty) → Plain r → Plain (strip_one c r)
strip_one-Plain c empty h k = if-Plain (is_code c 48) "" (c ▸ empty) refl h
strip_one-Plain c (d ▸ r) h k = ground arith

strip_zeros-Plain : (s : String) → Plain s → Plain (strip_zeros s)
strip_zeros-Plain empty h = refl
strip_zeros-Plain (c ▸ s) h =
    strip_one-Plain c (strip_zeros s) (ground arith) (strip_zeros-Plain s (ground arith))

pointed-Plain : (s : String) → Plain s → Plain (pointed s)
pointed-Plain empty h = refl
pointed-Plain (c ▸ s) h = Plain-append "." (c ▸ s) refl h

fraction-Plain : (k : ℕ) (s : String) → Plain s → Plain (fraction k s)
fraction-Plain k s h = pointed-Plain (strip_zeros (zeros (k - count s) <> s)) (
    strip_zeros-Plain (zeros (k - count s) <> s)
      (Plain-append (zeros (k - count s)) s (zeros-Plain (k - count s)) h))

pub fixed_point-Plain : (c : ℕ) (e : ℤ) → Plain (fixed_point c e)
fixed_point-Plain c (pos e) = Plain-append (show_nat c) (zeros e) (show_nat-Plain c) (zeros-Plain e)
fixed_point-Plain c (negsuc e) =
    Plain-append (show_nat (c / 10 ^ (e + 1))) (fraction (e + 1) (show_nat (c % 10 ^ (e + 1))))
      (show_nat-Plain (c / 10 ^ (e + 1)))
      (fraction-Plain (e + 1) (show_nat (c % 10 ^ (e + 1))) (show_nat-Plain (c % 10 ^ (e + 1))))
