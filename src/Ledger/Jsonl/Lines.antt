-- ===== src/Ledger/Jsonl/Lines.antt =====
-- A file of lines, as text and as bytes: its last line, and the lines that a reader of it sees.
use Prim.Native.Char.{code}
use Prim.Native.String.{[] as empty, ◌∷◌ as ◌▸◌, ◌++◌ as ◌<>◌}
use text.Mathlib.TextLemmas.{nil-append, cons-append}
use mathlib.Core.List
use sudo_agent.Base.{
  ℕ, ◌≤◌, ◌<◌, ◌≡◌, refl, sym, ap, ◌∙◌, String, true, false, List, [], ◌∷◌, ◌++◌, arith, ltb,
  same_nat, Bool-cases, inl, inr,
}
use sudo_agent.Base.Lists.{contains_byte}
use sudo_agent.Ledger.Numerals.Plain.{Plain}
use sudo_agent.Ledger.Jsonl.{
  Bytes, encode, encode_code, unless_last, rstrip_newlines, last_part, strip_right, strip_bytes,
  tail_data,
}
use sudo_agent.Ledger.Jsonl.Tail.{ends_blank, tail_data-last_part}

-- Each line with its newline
abbrev pub text_of_lines : List String → String
text_of_lines [] = ""
text_of_lines (l ∷ lines) = l <> "\n" <> text_of_lines lines

-- What canonical JSON of an object looks like
abbrev pub IsLine : String → Type 0
IsLine t = Plain t × ((inner : String) × (t ≡ "{" <> inner <> "}"))

abbrev pub AreLines : List String → Type 0
AreLines [] = Unit
AreLines (l ∷ lines) = IsLine l × AreLines lines

pub encode-append : (s t : String) → encode (s <> t) ≡ encode s ++ encode t
unfolding encode
encode-append empty t = rw nil-append refl
encode-append (c ▸ s) t = rw cons-append (
    ap (λ (r : Bytes). encode_code (code c) ++ r) (encode-append s t)
    ∙ sym (List.append_assoc (encode_code (code c)) (encode s) (encode t)))

abbrev AreHigh : Bytes → Type 0
AreHigh [] = Unit
AreHigh (b ∷ l) = (32 ≤ b) × AreHigh l

AreHigh-NoNewline : (l r : Bytes) → AreHigh l → contains_byte 10 (l ++ r) ≡ contains_byte 10 r
AreHigh-NoNewline [] r h = refl
AreHigh-NoNewline (b ∷ l) r (h, hs) = ground (arith, AreHigh-NoNewline l r hs)

encode_code-AreHigh : (c : ℕ) → 32 ≤ c → AreHigh (encode_code c)
encode_code-AreHigh c h = elim (Bool-cases (ltb c 128)) [
  | inl one ↦ rw one (h, tt)
  | inr e ↦ elim (Bool-cases (ltb c 2048)) [
    | inl two ↦ rw (e, two) (omega arith)
    | inr f ↦ elim (Bool-cases (ltb c 65536)) [
      | inl three ↦ rw (e, f, three) (omega arith)
      | inr four ↦ rw (e, f, four) (omega arith)
    ]
  ]
]

encode-NoNewline : (s : String) → Plain s → contains_byte 10 (encode s) ≡ false
unfolding encode
encode-NoNewline empty h = refl
encode-NoNewline (c ▸ s) h =
    AreHigh-NoNewline (encode_code (code c)) (encode s)
      (encode_code-AreHigh (code c) (ground arith))
    ∙ encode-NoNewline s (ground arith)

-- The bytes of a line: a brace, others, and a brace.
abbrev braced : Bytes → Bytes
braced l = 123 ∷ (l ++ 125 ∷ [])

pub record BytesOf (t : String) : Type 0 where
  pub inner : Bytes
  pub are : encode t ≡ braced inner
  pub one_line : contains_byte 10 (braced inner) ≡ false

encode-braced : (t inner : String) → t ≡ "{" <> inner <> "}" → encode t ≡ braced (encode inner)
unfolding encode
encode-braced t inner e =
    ap encode e ∙ encode-append "{" (inner <> "}") ∙ ap (◌∷◌ 123) (encode-append inner "}")

IsLine-BytesOf : (t : String) → IsLine t → BytesOf t
IsLine-BytesOf t (plain, (inner, e)) =
    let form = encode-braced t inner e in
    record {
      inner = encode inner;
      are = form;
      one_line = sym (ap (contains_byte 10) form) ∙ encode-NoNewline t plain;
    }

pub encode-IsLine : (t : String) → IsLine t → (s : Bytes) × (encode t ≡ 123 ∷ s)
encode-IsLine t h = let b = IsLine-BytesOf t h in (b.inner ++ 125 ∷ [], b.are)

strip_right-braced : (l : Bytes) → strip_right (l ++ 125 ∷ []) ≡ l ++ 125 ∷ []
strip_right-braced [] = refl
strip_right-braced (b ∷ []) = refl
strip_right-braced (b ∷ c ∷ l) = rw (strip_right-braced (c ∷ l)) refl

-- Stripping takes nothing from it.
strip_braced : (l : Bytes) → strip_bytes (braced l) ≡ braced l
strip_braced l = strip_right-braced (123 ∷ l)

newline_within : (l r : Bytes) → contains_byte 10 (l ++ 10 ∷ r) ≡ true
newline_within [] r = refl
newline_within (b ∷ l) r = ground (arith, newline_within l r)

-- What comes before a newline that something follows is not looked at.
last_part-after_newline : (l r : Bytes) → last_part (l ++ 10 ∷ r) ≡ last_part r
last_part-after_newline [] r = refl
last_part-after_newline (b ∷ l) r = ground (arith, newline_within l r, last_part-after_newline l r)

last_part-NoNewline : (l : Bytes) → contains_byte 10 l ≡ false → last_part l ≡ l
last_part-NoNewline [] h = refl
last_part-NoNewline (b ∷ l) h = rw h refl

kept :
    (b : ℕ) (l : Bytes) (c : ℕ) (s : Bytes)
    → unless_last (same_nat b 10) b (l ++ c ∷ s) ≡ b ∷ (l ++ c ∷ s)
kept b [] c s = refl
kept b (d ∷ l) c s = refl

rstrip-append :
    (l r : Bytes) (c : ℕ) (s : Bytes)
    → rstrip_newlines r ≡ c ∷ s
    → rstrip_newlines (l ++ r) ≡ l ++ rstrip_newlines r
rstrip-append [] r c s h = refl
rstrip-append (b ∷ l) r c s h = rw (rstrip-append l r c s h, h) (kept b l c s)

ends_blank-long :
    (l : Bytes) (c d : ℕ) (r : Bytes) → ends_blank (l ++ c ∷ d ∷ r) ≡ ends_blank (c ∷ d ∷ r)
ends_blank-long [] c d r = refl
ends_blank-long (b ∷ []) c d r = refl
ends_blank-long (b ∷ e ∷ []) c d r = refl
ends_blank-long (b ∷ e ∷ f ∷ l) c d r = ends_blank-long (e ∷ f ∷ l) c d r

-- A line with its newline
abbrev ended : Bytes → Bytes
ended i = 123 ∷ (i ++ 125 ∷ 10 ∷ [])

ended-append : (i r : Bytes) → ended i ++ r ≡ braced i ++ 10 ∷ r
ended-append i r =
    ap (◌∷◌ 123)
      (List.append_assoc i (125 ∷ 10 ∷ []) r ∙ sym (List.append_assoc i (125 ∷ []) (10 ∷ r)))

abbrev IsLong : Bytes → Type 0
IsLong l = (c : ℕ) × (d : ℕ) × (r : Bytes) × (l ≡ c ∷ d ∷ r)

behind-IsLong : (b : ℕ) (i : Bytes) (c : ℕ) (r : Bytes) → IsLong (b ∷ (i ++ c ∷ r))
behind-IsLong b [] c r = (b, c, r, refl)
behind-IsLong b (d ∷ i) c r = (b, d, i ++ c ∷ r, refl)

-- The bytes at the end of a file of lines, of which `line` is the last one
record TailOf (bytes line : Bytes) : Type 0 where
  left : (s : Bytes) × (rstrip_newlines bytes ≡ 123 ∷ s)
  found : last_part (rstrip_newlines bytes) ≡ line
  long : IsLong bytes
  not_blank : ends_blank bytes ≡ false

one-TailOf : (i : Bytes) → contains_byte 10 (braced i) ≡ false → TailOf (ended i) (braced i)
one-TailOf i h =
    let stripped : rstrip_newlines (ended i) ≡ braced i =
      rstrip-append (123 ∷ i) (125 ∷ 10 ∷ []) 125 [] refl in
    record {
      left = (i ++ 125 ∷ [], stripped);
      found = rw stripped (last_part-NoNewline (braced i) h);
      long = behind-IsLong 123 i 125 (10 ∷ []);
      not_blank = ends_blank-long (123 ∷ i) 125 10 [];
    }

more-TailOf : (i rest line : Bytes) → TailOf rest line → TailOf (ended i ++ rest) line
more-TailOf i rest line h =
    let (s, e) = h.left in
    let (c, d, r, shape) = h.long in
    let stripped : rstrip_newlines (ended i ++ rest) ≡ ended i ++ rstrip_newlines rest =
      rstrip-append (ended i) rest 123 s e in
    record {
      left = ((i ++ 125 ∷ 10 ∷ []) ++ rstrip_newlines rest, stripped);
      found =
          ap last_part (stripped ∙ ended-append i (rstrip_newlines rest))
          ∙ last_part-after_newline (braced i) (rstrip_newlines rest)
          ∙ h.found;
      long =
          longer
            (rw (List.append_assoc i (125 ∷ 10 ∷ []) rest) (behind-IsLong 123 i 125 (10 ∷ rest)));
      not_blank =
          ap (λ (x : Bytes). ends_blank (ended i ++ x)) shape
          ∙ ends_blank-long (ended i) c d r
          ∙ sym (ap ends_blank shape)
          ∙ h.not_blank;
    }
  where
    longer : IsLong (123 ∷ ((i ++ 125 ∷ 10 ∷ []) ++ rest)) → IsLong (ended i ++ rest)
    longer l = l

encode_line :
    (t rest : String) (b : BytesOf t) → encode (t <> "\n" <> rest) ≡ ended b.inner ++ encode rest
unfolding encode
encode_line t rest b =
    encode-append t ("\n" <> rest)
    ∙ ap (λ (x : Bytes). x ++ encode ("\n" <> rest)) b.are
    ∙ ap (λ (x : Bytes). braced b.inner ++ x) (encode-append "\n" rest)
    ∙ sym (ended-append b.inner (encode rest))

-- The last of some lines
abbrev pub last_of : String → List String → String
last_of l [] = l
last_of l (m ∷ lines) = last_of m lines

lines-TailOf :
    (l : String) (lines : List String)
    → AreLines (l ∷ lines)
    → TailOf (encode (text_of_lines (l ∷ lines))) (encode (last_of l lines))
unfolding encode
lines-TailOf l [] (h, _) =
    let b = IsLine-BytesOf l h in
    rw (encode_line l "" b, b.are, List.append-nil) (one-TailOf b.inner b.one_line)
lines-TailOf l (m ∷ lines) (h, hs) =
    let b = IsLine-BytesOf l h in
    rw (encode_line l (text_of_lines (m ∷ lines)) b) (
      more-TailOf b.inner (encode (text_of_lines (m ∷ lines))) (encode (last_of m lines))
        (lines-TailOf m lines hs))

pub last_of-IsLine :
    (l : String) (lines : List String) → AreLines (l ∷ lines) → IsLine (last_of l lines)
last_of-IsLine l [] (h, _) = h
last_of-IsLine l (m ∷ lines) (_, hs) = last_of-IsLine m lines hs

-- The bytes that are parsed at the end of a file of lines are those of its last line.
pub last_line_bytes :
    (chunk : ℕ) (l : String) (lines : List String)
    → 0 < chunk
    → AreLines (l ∷ lines)
    → strip_bytes
        (last_part (rstrip_newlines (tail_data chunk (encode (text_of_lines (l ∷ lines))))))
      ≡ encode (last_of l lines)
last_line_bytes chunk l lines h hs =
    let t = lines-TailOf l lines hs in
    let b = IsLine-BytesOf (last_of l lines) (last_of-IsLine l lines hs) in
    ap strip_bytes (
      tail_data-last_part chunk (encode (text_of_lines (l ∷ lines))) h t.not_blank
      ∙ t.found
      ∙ b.are)
    ∙ strip_braced b.inner
    ∙ sym b.are
