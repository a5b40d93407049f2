-- ===== src/Ledger/Jsonl/Tail.antt =====
-- Reading a file from its end finds the last line that reading it whole finds.
use sudo_agent.Base.{
  ℕ, zero, suc, ◌+◌, ◌-◌, ◌≤◌, ◌<◌, ◌≡◌, refl, sym, ap, ◌∙◌, ◌⊎◌, inl, inr, Bool, true, false, [],
  ◌∷◌, ◌++◌, ◌&&◌, arith, same_nat, Bool-cases,
}
use sudo_agent.Base.Lists.{
  length, take, drop, but_last, contains_byte, take-drop, drop-drop, drop-length,
}
use sudo_agent.Ledger.Jsonl.{
  Bytes, unless_last, rstrip_newlines, last_part, read_size, read_back, tail_data,
}

-- The file's last line is followed by an empty one.
abbrev pub ends_blank : Bytes → Bool
ends_blank [] = false
ends_blank (b ∷ []) = false
ends_blank (b ∷ c ∷ []) = same_nat b 10 && same_nat c 10
ends_blank (b ∷ c ∷ d ∷ l) = ends_blank (c ∷ d ∷ l)

-- A newline stands before the end of what is left once the newlines at the end are gone.
abbrev HasEarlier : Bytes → Type 0
HasEarlier l = contains_byte 10 (rstrip_newlines l) ≡ true

kept-HasNewline :
    (goes : Bool) (b : ℕ) (r : Bytes)
    → contains_byte 10 r ≡ true
    → (contains_byte 10 (unless_last goes b r) ≡ true)
      × (last_part (unless_last goes b r) ≡ last_part r)
kept-HasNewline goes b [] h = absurd (cc h)
kept-HasNewline goes b (c ∷ r) h = ground arith

HasEarlier-cons :
    (b : ℕ) (l : Bytes)
    → HasEarlier l
    → HasEarlier (b ∷ l) × (last_part (rstrip_newlines (b ∷ l)) ≡ last_part (rstrip_newlines l))
HasEarlier-cons b l h = kept-HasNewline (same_nat b 10) b (rstrip_newlines l) h

nothing_left :
    (goes : Bool) (b : ℕ) (r : Bytes) → unless_last goes b r ≡ [] → (r ≡ []) × (goes ≡ true)
nothing_left true b [] h = (refl, refl)
nothing_left false b [] h = absurd (cc h)
nothing_left goes b (c ∷ r) h = absurd (cc h)

-- Nothing is left of what holds newlines only.
blank_of_stripped :
    (b c : ℕ) (l : Bytes)
    → same_nat b 10 ≡ true
    → rstrip_newlines (c ∷ l) ≡ []
    → ends_blank (b ∷ c ∷ l) ≡ true
blank_of_stripped b c [] newline e =
    let (_, g) = nothing_left (same_nat c 10) c [] e in rw (newline, g) refl
blank_of_stripped b c (d ∷ l) newline e =
    let (none_left, g) = nothing_left (same_nat c 10) c (rstrip_newlines (d ∷ l)) e in
    blank_of_stripped c d l g none_left

newline-HasEarlier :
    (b : ℕ) (r : Bytes) (goes : Bool)
    → same_nat b 10 ≡ true
    → ¬ (r ≡ [])
    → contains_byte 10 (unless_last goes b r) ≡ true
newline-HasEarlier b [] goes h n = absurd (n refl)
newline-HasEarlier b (c ∷ r) goes h n = ground arith

HasEarlier-newline :
    (l : Bytes) → contains_byte 10 (but_last l) ≡ true → ends_blank l ≡ false → HasEarlier l
HasEarlier-newline [] h k = absurd (cc h)
HasEarlier-newline (b ∷ []) h k = absurd (cc h)
HasEarlier-newline (b ∷ c ∷ []) h k = ground arith
HasEarlier-newline (b ∷ c ∷ d ∷ l) h k =
    elim (Bool-cases (contains_byte 10 (but_last (c ∷ d ∷ l)))) [
      | inl later ↦ (HasEarlier-cons b (c ∷ d ∷ l) (HasEarlier-newline (c ∷ d ∷ l) later k)).0
      | inr none_later ↦ elim (Bool-cases (same_nat b 10)) [
        | inr g ↦ absurd (cc (rw (g, none_later) at h))
        | inl g ↦
            newline-HasEarlier b (rstrip_newlines (c ∷ d ∷ l)) (same_nat b 10) g
              λ e. absurd (cc (sym k ∙ blank_of_stripped b c (d ∷ l) g e))
      ]
    ]

-- What stands in front does not matter.
last_part-append :
    (before data_ : Bytes)
    → HasEarlier data_
    → HasEarlier (before ++ data_)
      × (last_part (rstrip_newlines (before ++ data_)) ≡ last_part (rstrip_newlines data_))
last_part-append [] d h = (h, refl)
last_part-append (b ∷ before) d h =
    let (k, e) = last_part-append before d h in
    let (k', e') = HasEarlier-cons b (before ++ d) k in (k', e' ∙ e)

ends_blank-append :
    (before data_ : Bytes) → ends_blank (before ++ data_) ≡ false → ends_blank data_ ≡ false
ends_blank-append [] d h = h
ends_blank-append (b ∷ []) [] h = refl
ends_blank-append (b ∷ []) (c ∷ []) h = refl
ends_blank-append (b ∷ []) (c ∷ e ∷ d) h = h
ends_blank-append (b ∷ c ∷ []) [] h = refl
ends_blank-append (b ∷ c ∷ []) (e ∷ d) h = ends_blank-append (c ∷ []) (e ∷ d) h
ends_blank-append (b ∷ c ∷ e ∷ before) d h = ends_blank-append (c ∷ e ∷ before) d h

-- What the loop returns: the file from some place on, which is its start or has a newline behind it
-- that does not stand at the end.
abbrev Reaches : Bytes → Bytes → Type 0
Reaches file r = (p : ℕ) × (r ≡ drop p file) × ((p ≡ 0) ⊎ (contains_byte 10 (but_last r) ≡ true))

joined :
    (size from pos : ℕ) (file data_ : Bytes)
    → from + size ≡ pos
    → data_ ≡ drop pos file
    → take size (drop from file) ++ data_ ≡ drop from file
joined size from pos file d s e =
    ap (λ (r : Bytes). take size (drop from file) ++ r)
      (e ∙ ap (λ (k : ℕ). drop k file) (sym s) ∙ sym (drop-drop size from file))
    ∙ take-drop size (drop from file)

read_size_bounds :
    (chunk pos : ℕ)
    → 0 < chunk
    → ¬ (pos ≡ 0)
    → (pos - read_size chunk pos + read_size chunk pos ≡ pos) × (pos - read_size chunk pos < pos)
read_size_bounds chunk pos h n = ground arith

same_nat_iff : (a b : ℕ) → (same_nat a b ≡ true → a ≡ b) × (same_nat a b ≡ false → ¬ (a ≡ b))
same_nat_iff a b = (λ h. ground arith, λ h e. ground arith)

read_back-Reaches :
    (fuel chunk : ℕ) (file : Bytes) (pos : ℕ) (data_ : Bytes)
    → 0 < chunk
    → pos ≤ fuel
    → data_ ≡ drop pos file
    → Reaches file (read_back fuel chunk file pos data_)
unfolding read_back
read_back-Reaches zero chunk file pos d c h e = (pos, e, inl (omega arith))
read_back-Reaches (suc fuel) chunk file pos d c h e = elim (Bool-cases (same_nat pos 0)) [
  | inl start ↦ rw start (pos, e, inl ((same_nat_iff pos 0).0 start))
  | inr further ↦
      let size = read_size chunk pos in
      let from = pos - size in
      let more = take size (drop from file) ++ d in
      let (sum_, less) = read_size_bounds chunk pos c ((same_nat_iff pos 0).1 further) in
      let reached : more ≡ drop from file = joined size from pos file d sum_ e in
      elim (Bool-cases (contains_byte 10 (but_last more))) [
        | inl found ↦ rw (further, found) (from, reached, inr found)
        | inr unfound ↦ elim (Bool-cases (same_nat from 0)) [
          | inl begun ↦
              rw (further, unfound, begun) (from, reached, inl ((same_nat_iff from 0).0 begun))
          | inr on_ ↦
              rw (further, unfound, on_)
                (read_back-Reaches fuel chunk file from more c (omega arith) reached)
        ]
      ]
]

dropped-last_part :
    (p : ℕ) (file : Bytes)
    → ends_blank file ≡ false
    → contains_byte 10 (but_last (drop p file)) ≡ true
    → last_part (rstrip_newlines (drop p file)) ≡ last_part (rstrip_newlines file)
dropped-last_part p file h found =
    let whole = take-drop p file in
    let later = ends_blank-append (take p file) (drop p file) (rw whole h) in
    let earlier = HasEarlier-newline (drop p file) found later in
    sym (last_part-append (take p file) (drop p file) earlier).1
    ∙ ap (λ (d : Bytes). last_part (rstrip_newlines d)) whole

-- Whatever the size of the chunks, where no empty line stands at the end of the file, the last line
-- that is found in the chunks is the one that is found in the whole file.
pub tail_data-last_part :
    (chunk : ℕ) (file : Bytes)
    → 0 < chunk
    → ends_blank file ≡ false
    → last_part (rstrip_newlines (tail_data chunk file)) ≡ last_part (rstrip_newlines file)
unfolding tail_data
tail_data-last_part chunk file c h =
    let (p, e, place) =
      read_back-Reaches (length file) chunk file (length file) [] c (omega arith)
        (sym (drop-length file)) in
    ap (λ (d : Bytes). last_part (rstrip_newlines d)) e ∙ elim place [
      | inl start ↦ ap (λ (k : ℕ). last_part (rstrip_newlines (drop k file))) start
      | inr found ↦ dropped-last_part p file h (rw e at found)
    ]
