-- ===== src/Ledger/Jsonl/Locked.antt =====
-- ledger/jsonl.py and ledger/filelock.py: several processes that append to one file, each under the
-- exclusive lock of `locked_file`.
pub mod Appends
pub mod Serial
use Prim.Native.String.{◌++◌ as ◌<>◌}
use sudo_agent.Base.{
  ℕ, zero, suc, ◌+◌, ◌≡◌, refl, sym, ◌∙◌, ap, String, Bool, true, false, Option, none, some, List,
  [], ◌∷◌, ◌++◌, same_nat, if◌then◌else◌, Bool-cases, inl, inr, arith,
}
use sudo_agent.Value.{dict, Fields}
use sudo_agent.Ledger.Jcs.{Error, Result, ok, err}
use sudo_agent.Ledger.Chain.{Hashing, ◌>>=◌, prepare_entry, signed}
use sudo_agent.Ledger.Jsonl.{Bytes}
use sudo_agent.Ledger.Jsonl.Operations.{
  Loaded, Completion, returned, raised, as_write_error, read_last_entry_hash, append_text, opened,
  written, append,
}

-- How far a process has come in `append`; what it has read is the text of the file.
pub data Phase : Type 0 where
  waiting ready inside : Phase
  has_read : String → Phase
  finished done : Completion String → Phase

-- The file, the process that holds its lock, and the processes by their number
pub record Shared : Type 0 where
  pub file : Option String
  pub holder : Option ℕ
  pub phase : ℕ → Phase

abbrev pub set_phase : ℕ → Phase → (ℕ → Phase) → ℕ → Phase
set_phase p f phase q = if same_nat p q then f else phase q

module _ (self : Hashing) (loads : Bytes → Loaded) (entries : ℕ → Fields) where
  -- The line that is written, and its hash, from the text that was read
  unfoldable pub entry_line : Fields → String → Result (String × String)
  entry_line entry text = do
    last ← read_last_entry_hash self loads text
    (prepared, h) ← prepare_entry self entry last
    line ← self.canonical_json (dict (signed self.sign h prepared))
    ok (line <> "\n", h)

  abbrev pub write_line : Result (String × String) → Option String → Option String
  write_line (ok (line, h)) file = some (opened self loads file <> line)
  write_line (err e) file = file

  abbrev pub result_of : Result (String × String) → Completion String
  result_of (ok (line, h)) = returned h
  result_of (err e) = raised (as_write_error e)

  abbrev pub acquire : ℕ → Shared → Option ℕ → Shared
  acquire p s none = record s { holder = some p; phase = set_phase p inside s.phase }
  acquire p s (some q) = s

  -- The next step of a process: opening the file makes it where there is none, and taking the lock
  -- blocks while another process holds it.
  abbrev pub advance_from : ℕ → Shared → Phase → Shared
  advance_from p s waiting = record s {
    file = some (opened self loads s.file);
    phase = set_phase p ready s.phase;
  }
  advance_from p s ready = acquire p s s.holder
  advance_from p s inside = record s {
    phase = set_phase p (has_read (opened self loads s.file)) s.phase;
  }
  advance_from p s (has_read text) =
      let r = entry_line (entries p) text in
      record s { file = write_line r s.file; phase = set_phase p (finished (result_of r)) s.phase }
  advance_from p s (finished r) = record s { holder = none; phase = set_phase p (done r) s.phase }
  advance_from p s (done r) = s

  abbrev pub advance : ℕ → Shared → Shared
  advance p s = advance_from p s (s.phase p)

  -- A schedule says which process makes the next step.
  unfoldable pub run : List ℕ → Shared → Shared
  unfolding entry_line
  run [] s = s
  run (p ∷ schedule) s = run schedule (advance p s)
