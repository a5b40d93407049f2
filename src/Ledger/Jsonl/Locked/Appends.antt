-- ===== src/Ledger/Jsonl/Locked/Appends.antt =====
-- A write under the lock as an append, and appends one after another.
use Prim.Native.String.{◌++◌ as ◌<>◌}
use sudo_agent.Base.{ℕ, ◌≡◌, refl, ap, String, Option, List, [], ◌∷◌, ◌++◌, inl, inr, ◌⊎◌}
use sudo_agent.Value.{dict, Fields}
use sudo_agent.Ledger.Jcs.{Result, ok, err}
use sudo_agent.Ledger.Chain.{Hashing, ◌>>=◌, prepare_entry, signed}
use sudo_agent.Ledger.Jsonl.{Bytes}
use sudo_agent.Ledger.Jsonl.Operations.{
  Loaded, Completion, read_last_entry_hash, append_text, opened, written, append,
}
use sudo_agent.Ledger.Jsonl.Locked.{entry_line, write_line, result_of}

module _ (self : Hashing) (loads : Bytes → Loaded) (entries : ℕ → Fields) where
  -- The file after the appends of the processes in this order, one after another
  abbrev pub after : List ℕ → Option String → Option String
  after [] file = file
  after (p ∷ order) file = after order (append self loads (entries p) file).1

  -- In that order, the append of the process `p` ends with `r`.
  abbrev pub EndsWith : ℕ → Completion String → List ℕ → Option String → Type 0
  EndsWith p r [] file = ⊥
  EndsWith p r (q ∷ order) file =
      ((q ≡ p) × ((append self loads (entries q) file).0 ≡ r))
      ⊎ EndsWith p r order (append self loads (entries q) file).1

  pub after-last :
      (order : List ℕ) (p : ℕ) (file : Option String)
      → after (order ++ p ∷ []) file ≡ (append self loads (entries p) (after order file)).1
  after-last [] p file = refl
  after-last (q ∷ order) p file = after-last order p _

  pub EndsWith-last :
      (order : List ℕ) (p : ℕ) (file : Option String)
      → EndsWith p (append self loads (entries p) (after order file)).0 (order ++ p ∷ []) file
  EndsWith-last [] p file = inl (refl, refl)
  EndsWith-last (q ∷ order) p file = inr (EndsWith-last order p _)

  pub EndsWith-more :
      (order : List ℕ) (p q : ℕ) (r : Completion String) (file : Option String)
      → EndsWith p r order file
      → EndsWith p r (order ++ q ∷ []) file
  EndsWith-more [] p q r file h = absurd h
  EndsWith-more (x ∷ order) p q r file (inl h) = inl h
  EndsWith-more (x ∷ order) p q r file (inr h) = inr (EndsWith-more order p q r _ h)

  abbrev with_text : String → Result (String × String) → Result (String × String)
  with_text text (ok (line, h)) = ok (text <> line, h)
  with_text text (err e) = err e

  then-with_text :
      {A : Type 0} (text : String) (r : Result A) (f g : A → Result (String × String))
      → ((a : A) → f a ≡ with_text text (g a))
      → (r >>= f) ≡ with_text text (r >>= g)
  then-with_text text (ok a) f g h = h a
  then-with_text text (err e) f g h = refl

  append_text-entry_line :
      (e : Fields) (text : String)
      → append_text self loads e text ≡ with_text text (entry_line self loads entries e text)
  unfolding append_text entry_line
  append_text-entry_line e text =
      then-with_text text (read_last_entry_hash self loads text) _ _ λ last.
        then-with_text text (prepare_entry self e last) _ _ λ (prepared, h).
          then-with_text text (self.canonical_json (dict (signed self.sign h prepared))) _ _
            λ line. refl

  written-line :
      (r : Result (String × String)) (file : Option String)
      → let p =
          written self loads (opened self loads file) (with_text (opened self loads file) r) in
        (opened self loads (write_line self loads entries r file) ≡ opened self loads p.1)
        × (result_of self loads entries r ≡ p.0)
  written-line (ok (line, h)) file = (refl, refl)
  written-line (err e) file = (refl, refl)

  append-written :
      (e : Fields) (file : Option String)
      → append self loads e file
        ≡ written self loads (opened self loads file) (
            with_text
              (opened self loads file)
              (entry_line self loads entries e (opened self loads file)))
  unfolding append
  append-written e file =
      ap (written self loads (opened self loads file))
        (append_text-entry_line e (opened self loads file))

  -- A write of what was made from the text of the file is an append.
  pub write_line-append :
      (e : Fields) (text : String) (file : Option String)
      → text ≡ opened self loads file
      → (opened self loads
            (write_line self loads entries (entry_line self loads entries e text) file)
          ≡ opened self loads (append self loads e file).1)
        × (result_of self loads entries (entry_line self loads entries e text)
            ≡ (append self loads e file).0)
  write_line-append e text file same = rw (same, append-written e file) (written-line _ file)

  pub append-opened :
      (e : Fields) (f g : Option String)
      → opened self loads f ≡ opened self loads g
      → append self loads e f ≡ append self loads e g
  append-opened e f g same = rw (append-written e f, append-written e g, same) refl
