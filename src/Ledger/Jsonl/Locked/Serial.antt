-- ===== src/Ledger/Jsonl/Locked/Serial.antt =====
-- Appending under the lock: what any schedule leaves is what the appends leave one after another.
use sudo_agent.Base.{
  ℕ, ◌+◌, ◌≡◌, refl, sym, ◌∙◌, ap, String, true, false, Option, none, some, List, [], ◌∷◌, ◌++◌,
  same_nat, if◌then◌else◌, Bool-cases, inl, inr, arith,
}
use sudo_agent.Value.{Fields}
use sudo_agent.Ledger.Chain.{Hashing}
use sudo_agent.Ledger.Jsonl.{Bytes}
use sudo_agent.Ledger.Jsonl.Operations.{Loaded, opened}
use sudo_agent.Ledger.Jsonl.Locked.{
  Phase, waiting, ready, inside, has_read, finished, done, Shared, set_phase, entry_line, result_of,
  acquire, advance_from, advance, run,
}
use sudo_agent.Ledger.Jsonl.Locked.Appends.{
  after-last, EndsWith-last, EndsWith-more, write_line-append, append-opened, after, EndsWith,
}

abbrev pub count : ℕ → List ℕ → ℕ
count p [] = 0
count p (q ∷ l) = (if same_nat q p then 1 else 0) + count p l

-- How often the process has written
abbrev pub writes : Phase → ℕ
writes (finished r) = 1
writes (done r) = 1
writes ph = 0

set_phase-all :
    (P : ℕ → Phase → Type 0) (p : ℕ) (f : Phase) (phase : ℕ → Phase)
    → P p f
    → ((q : ℕ) → same_nat p q ≡ false → P q (phase q))
    → (q : ℕ) → P q (set_phase p f phase q)
set_phase-all P p f phase own others q = elim (Bool-cases (same_nat p q)) [
  | inl h ↦ rw h (rw (← same p q h) own)
  | inr h ↦ rw h (others q h)
]
  where
    same : (a b : ℕ) → same_nat a b ≡ true → a ≡ b
    same a b h = ground (arith, h)

different : (p q : ℕ) → p ≡ q → ¬ (same_nat p q ≡ false)
different p q same other = ground (arith, same, other)

only_one :
    (holder : Option ℕ) (p q : ℕ) → holder ≡ some p → holder ≡ some q → ¬ (same_nat p q ≡ false)
only_one holder p q a b = different p q (cc (a, b))

count-last :
    (q p : ℕ) (order : List ℕ)
    → count q (order ++ p ∷ []) ≡ count q order + (if same_nat p q then 1 else 0)
count-last q p [] = ground arith
count-last q p (x ∷ order) = ground (arith, count-last q p order)

counted_now : (p : ℕ) (order : List ℕ) → count p order ≡ 0 → count p (order ++ p ∷ []) ≡ 1
counted_now p order h = ground (arith, count-last p p order, h)

counted_other :
    (q p : ℕ) (order : List ℕ) → same_nat p q ≡ false → count q (order ++ p ∷ []) ≡ count q order
counted_other q p order h = ground (arith, count-last q p order, h)

module _ (self : Hashing) (loads : Bytes → Loaded) (entries : ℕ → Fields) where
  -- What holds of a process in its phase, with the file and its lock
  abbrev Held : Shared → ℕ → Phase → Type 0
  Held s p waiting = Unit
  Held s p ready = Unit
  Held s p inside = s.holder ≡ some p
  Held s p (has_read text) = (s.holder ≡ some p) × (text ≡ opened self loads s.file)
  Held s p (finished r) = s.holder ≡ some p
  Held s p (done r) = Unit

  -- The process's result is the one of its place in the order.
  abbrev pub Ended : Option String → List ℕ → ℕ → Phase → Type 0
  Ended start order p (finished r) = EndsWith self loads entries p r order start
  Ended start order p (done r) = EndsWith self loads entries p r order start
  Ended start order p ph = Unit

  record Inv (start : Option String) (s : Shared) (order : List ℕ) : Type 0 where
    file : opened self loads s.file ≡ opened self loads (after self loads entries order start)
    held : (p : ℕ) → Held s p (s.phase p)
    counted : (p : ℕ) → count p order ≡ writes (s.phase p)
    ended : (p : ℕ) → Ended start order p (s.phase p)

  Held-carries :
      (s s' : Shared) (p : ℕ) (ph : Phase)
      → (s.holder ≡ some p
          → (s'.holder ≡ some p) × (opened self loads s'.file ≡ opened self loads s.file))
      → Held s p ph
      → Held s' p ph
  Held-carries s s' p waiting h k = tt
  Held-carries s s' p ready h k = tt
  Held-carries s s' p inside h k = (h k).0
  Held-carries s s' p (has_read text) h (k, same) = ((h k).0, same ∙ sym (h k).1)
  Held-carries s s' p (finished r) h k = (h k).0
  Held-carries s s' p (done r) h k = tt

  Ended-more :
      (start : Option String) (order : List ℕ) (q p : ℕ) (ph : Phase)
      → Ended start order p ph
      → Ended start (order ++ q ∷ []) p ph
  Ended-more start order q p waiting h = tt
  Ended-more start order q p ready h = tt
  Ended-more start order q p inside h = tt
  Ended-more start order q p (has_read text) h = tt
  Ended-more start order q p (finished r) h = EndsWith-more self loads entries order p q r start h
  Ended-more start order q p (done r) h = EndsWith-more self loads entries order p q r start h

  module _ (start : Option String) (p : ℕ) (s : Shared) (order : List ℕ)
      (i : Inv start s order) where
    -- A step that is no write and leaves the file's text
    moves :
        (f : Phase) (file : Option String) (holder : Option ℕ)
        → opened self loads file ≡ opened self loads s.file
        → writes f ≡ writes (s.phase p)
        → Ended start order p f
        → let s' = record s { file = file; holder = holder; phase = set_phase p f s.phase } in
          Held s' p f
          → ((q : ℕ) → same_nat p q ≡ false → s.holder ≡ some q → holder ≡ some q)
          → Inv start s' order
    moves f file holder text no_write ended held others = record {
      file = text ∙ i.file;
      held =
          set_phase-all
            (Held (record s { file = file; holder = holder; phase = set_phase p f s.phase })) p f
            s.phase held
            (λ q other.
              Held-carries s
                (record s { file = file; holder = holder; phase = set_phase p f s.phase }) q
                (s.phase q) (λ h. (others q other h, text)) (i.held q));
      counted =
          set_phase-all (λ q ph. count q order ≡ writes ph) p f s.phase (i.counted p ∙ sym no_write)
            (λ q other. i.counted q);
      ended = set_phase-all (Ended start order) p f s.phase ended (λ q other. i.ended q);
    }

  at-Held :
      (start : Option String) (p : ℕ) (s : Shared) (order : List ℕ) (ph : Phase)
      → s.phase p ≡ ph
      → Inv start s order
      → Held s p ph
  at-Held start p s order ph at i = rw (← at) (i.held p)

  at-Ended :
      (start : Option String) (p : ℕ) (s : Shared) (order : List ℕ) (ph : Phase)
      → s.phase p ≡ ph
      → Inv start s order
      → Ended start order p ph
  at-Ended start p s order ph at i = rw (← at) (i.ended p)

  acquire-Inv :
      (start : Option String) (p : ℕ) (s : Shared) (order : List ℕ) (holder : Option ℕ)
      → s.phase p ≡ ready
      → s.holder ≡ holder
      → Inv start s order
      → Inv start (acquire self loads entries p s holder) order
  acquire-Inv start p s order (some q) at free i = i
  acquire-Inv start p s order none at free i =
      moves start p s order i inside s.file (some p) refl (rw at refl) tt refl
        (λ q other h. absurd (cc (h, free)))

  -- A write under the lock comes after all writes so far.
  write-Inv :
      (start : Option String) (p : ℕ) (s : Shared) (order : List ℕ) (text : String)
      → s.phase p ≡ has_read text
      → Inv start s order
      → Inv start (advance_from self loads entries p s (has_read text)) (order ++ p ∷ [])
  write-Inv start p s order text at i =
      let (held, same) = at-Held start p s order (has_read text) at i in
      let r = entry_line self loads entries (entries p) text in
      let (file, result) = write_line-append self loads entries (entries p) text s.file same in
      let serial =
        append-opened self loads entries (entries p) s.file (after self loads entries order start)
          i.file in
      let s' : Shared = advance_from self loads entries p s (has_read text) in
      record {
        file =
            file
            ∙ ap (λ x. opened self loads x.1) serial
            ∙ sym (ap (opened self loads) (after-last self loads entries order p start));
        held =
            set_phase-all (Held s') p (finished (result_of self loads entries r)) s.phase held
              (λ q other.
                Held-carries s s' q (s.phase q) (λ h. absurd (only_one s.holder p q held h other))
                  (i.held q));
        counted =
            set_phase-all (λ q ph. count q (order ++ p ∷ []) ≡ writes ph) p
              (finished (result_of self loads entries r)) s.phase
              (counted_now p order (rw (i.counted p, at) refl))
              (λ q other. counted_other q p order other ∙ i.counted q);
        ended =
            set_phase-all (Ended start (order ++ p ∷ [])) p
              (finished (result_of self loads entries r)) s.phase
              (rw (result, serial) (EndsWith-last self loads entries order p start))
              (λ q other. Ended-more start order p q (s.phase q) (i.ended q));
      }

  advance_from-Inv :
      (start : Option String) (p : ℕ) (s : Shared) (order : List ℕ) (ph : Phase)
      → s.phase p ≡ ph
      → Inv start s order
      → (order' : List ℕ) × Inv start (advance_from self loads entries p s ph) order'
  advance_from-Inv start p s order waiting at i = (
    order,
    moves start p s order i ready (some (opened self loads s.file)) s.holder refl (rw at refl) tt tt
        (λ q other h. h),
  )
  advance_from-Inv start p s order ready at i =
      (order, acquire-Inv start p s order s.holder at refl i)
  advance_from-Inv start p s order inside at i = (
    order,
    moves start p s order i (has_read (opened self loads s.file)) s.file s.holder refl (rw at refl)
        tt (at-Held start p s order inside at i, refl) (λ q other h. h),
  )
  advance_from-Inv start p s order (has_read text) at i =
      (order ++ p ∷ [], write-Inv start p s order text at i)
  advance_from-Inv start p s order (finished r) at i = (
    order,
    moves start p s order i (done r) s.file none refl (rw at refl)
        (at-Ended start p s order (finished r) at i) tt
        (λ q other h.
          absurd (only_one s.holder p q (at-Held start p s order (finished r) at i) h other)),
  )
  advance_from-Inv start p s order (done r) at i = (order, i)

  run-Inv :
      (start : Option String) (schedule : List ℕ) (s : Shared) (order : List ℕ)
      → Inv start s order
      → (order' : List ℕ) × Inv start (run self loads entries schedule s) order'
  unfolding run
  run-Inv start [] s order i = (order, i)
  run-Inv start (p ∷ schedule) s order i =
      let (order', i') = advance_from-Inv start p s order (s.phase p) refl i in
      run-Inv start schedule (advance self loads entries p s) order' i'

  -- An order of the processes that have written, each of them once, in which the appends one after
  -- another leave the same text and end with the same results
  abbrev pub IsSerial : Option String → Shared → Type 0
  IsSerial start s =
      (order : List ℕ) × (opened self loads s.file
        ≡ opened self loads (after self loads entries order start))
      × ((p : ℕ) → count p order ≡ writes (s.phase p))
      × ((p : ℕ) → Ended start order p (s.phase p))

  abbrev pub begin : Option String → Shared
  begin start = record { file = start; holder = none; phase = λ p. waiting }

  -- Whatever processes append, and in whatever order their steps come, also while some have not
  -- finished: there is an order of the processes that have written, each of them once, in which their
  -- appends one after another leave the text that is in the file, and end as they have ended.
  pub run-IsSerial :
      (start : Option String) (schedule : List ℕ)
      → IsSerial start (run self loads entries schedule (begin start))
  run-IsSerial start schedule =
      let (order, i) =
        run-Inv start schedule (begin start) []
          (record { file = refl; held = λ p. tt; counted = λ p. refl; ended = λ p. tt }) in
      (order, i.file, i.counted, i.ended)
