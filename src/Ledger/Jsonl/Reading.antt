-- ===== src/Ledger/Jsonl/Reading.antt =====
-- A reader of a file of lines sees those lines.
use Prim.Native.Char.{Char, code}
use Prim.Native.String.{[] as empty, ◌∷◌ as ◌▸◌, ◌++◌ as ◌<>◌}
use text.Mathlib.TextLemmas.{nil-append, cons-append}
use sudo_agent.Base.{
  ℕ, suc, ◌≡◌, refl, sym, ap, ◌∙◌, String, true, false, List, [], ◌∷◌, arith, leb,
}
use sudo_agent.Ledger.Numerals.Plain.{Plain}
use sudo_agent.Ledger.Jcs.{Result}
use sudo_agent.Ledger.Chain.{Verifier, Hashing, ◌>>=◌, validate_entry}
use sudo_agent.Ledger.Jsonl.{Bytes}
use sudo_agent.Ledger.Jsonl.Lines.{text_of_lines, AreLines}
use sudo_agent.Ledger.Jsonl.Operations.{
  Loaded, ends_line, raw_lines, unless_newline, rstrip_line, parse_line, verify_lines,
}

abbrev newline : Char
newline = "\n"

behind_newline : (rest : String) → "\n" <> rest ≡ newline ▸ rest
behind_newline rest = cons-append newline empty rest ∙ ap (◌▸◌ newline) (nil-append rest)

newline-ends_line : (s : String) → ends_line newline s ≡ true
newline-ends_line empty = refl
newline-ends_line (d ▸ s) = refl

plain-ends_line : (c : Char) (s : String) → leb 32 (code c) ≡ true → ends_line c s ≡ false
plain-ends_line c empty h = ground arith
plain-ends_line c (d ▸ s) h = ground arith

raw_lines-line :
    (l rest : String) → Plain l → raw_lines (l <> "\n" <> rest) ≡ (l <> "\n") ∷ raw_lines rest
unfolding raw_lines
raw_lines-line empty rest h =
    rw (nil-append, behind_newline rest) (rw (newline-ends_line rest) refl)
raw_lines-line (c ▸ l) rest h =
    rw
      (
        cons-append,
        plain-ends_line c (l <> "\n" <> rest) (ground arith),
        raw_lines-line l rest (ground arith),
      )
      (ap (λ (x : String). x ∷ raw_lines rest) (sym (cons-append c l "\n")))

kept : (c : Char) (l : String) → leb 32 (code c) ≡ true → unless_newline c l ≡ c ▸ l
kept c empty h = ground arith
kept c (d ▸ l) h = refl

rstrip_line-ended : (l : String) → Plain l → rstrip_line (l <> "\n") ≡ l
rstrip_line-ended empty h = refl
rstrip_line-ended (c ▸ l) h =
    rw (cons-append, rstrip_line-ended l (ground arith)) (kept c l (ground arith))

pub bind_same :
    {A B : Type 0} (r : Result A) (f g : A → Result B)
    → ((a : A) → f a ≡ g a)
    → (r >>= f) ≡ (r >>= g)
bind_same (Result.ok a) f g h = h a
bind_same (Result.err e) f g h = refl

module _ (self : Hashing) (loads : Bytes → Loaded) where
  -- The check of each line as it was written
  unfoldable pub verify_each : Verifier → ℕ → List String → Result Verifier
  verify_each v n [] = Result.ok v
  verify_each v n (l ∷ lines) = parse_line self loads n l >>= λ p.
      validate_entry self v p >>= λ v'. verify_each v' (suc n) lines

  pub verify_lines-eq :
      (v : Verifier) (n : ℕ) (lines : List String)
      → AreLines lines
      → verify_lines self loads v n (raw_lines (text_of_lines lines)) ≡ verify_each v n lines
  unfolding verify_lines verify_each raw_lines
  verify_lines-eq v n [] h = refl
  verify_lines-eq v n (l ∷ lines) (h, hs) =
      rw (raw_lines-line l (text_of_lines lines) h.0, rstrip_line-ended l h.0)
        (bind_same (parse_line self loads n l) _ _
          λ p. bind_same (validate_entry self v p) _ _ λ v'. verify_lines-eq v' (suc n) lines hs)
