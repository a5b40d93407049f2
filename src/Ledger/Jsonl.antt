-- ===== src/Ledger/Jsonl.antt =====
-- ledger/jsonl.py: the ledger in a file of lines. The file is a text, `none` where there is none, and
-- is held under its lock through each operation; the end of it is read as UTF-8 bytes, in chunks.
-- `json.loads` with `Decimal` for fractions is the parameter `loads`, on UTF-8 bytes.
pub mod Tail
pub mod Operations
pub mod Lines
pub mod Locked
pub mod Appended
pub mod Reading
mod Examples
use Prim.Native.Char.{Char, code}
use Prim.Native.String.{[] as empty, ◌∷◌ as ◌▸◌, ◌++◌ as ◌<>◌}
use sudo_agent.Base.{
  ℕ, zero, suc, ◌+◌, ◌-◌, ◌*◌, ◌/◌, ◌%◌, String, Bool, true, false, Option, none, some, List, [],
  ◌∷◌, ◌++◌, ◌==◌, ◌||◌, ◌&&◌, ltb, leb, same_nat, if◌then◌else◌,
}
use sudo_agent.Base.Lists.{length, take, drop, but_last, contains_byte}
use sudo_agent.Value.{Value, dict, Fields, text_of, fields_of}
use sudo_agent.Value.Dict.{get}
use sudo_agent.Ledger.Numerals.{show_nat}
use sudo_agent.Ledger.Jcs.{Error, canonicalization, verification, Result, ok, err, then_result}
use sudo_agent.Ledger.Chain.{
  ParsedEntry, Verifier, Hashing, ◌>>=◌, prepare_entry, signed, validate_entry,
}

abbrev pub Bytes : Type 0
Bytes = List ℕ

-- `TAIL_READ_CHUNK_SIZE`
abbrev pub tail_read_chunk_size : ℕ
tail_read_chunk_size = 4096

-- `s.encode("utf-8")`
abbrev encode_code : ℕ → Bytes
encode_code c =
    if ltb c 128
    then c ∷ []
    else if ltb c 2048
    then (192 + c / 64) ∷ (128 + c % 64) ∷ []
    else if ltb c 65536
    then (224 + c / 4096) ∷ (128 + c / 64 % 64) ∷ (128 + c % 64) ∷ []
    else (240 + c / 262144) ∷ (128 + c / 4096 % 64) ∷ (128 + c / 64 % 64) ∷ (128 + c % 64) ∷ []

unfoldable pub encode : String → Bytes
encode empty = []
encode (c ▸ s) = encode_code (code c) ++ encode s

-- A byte that is to go where nothing is left behind it
abbrev pub unless_last : Bool → ℕ → Bytes → Bytes
unless_last goes b [] = if goes then [] else b ∷ []
unless_last goes b (c ∷ l) = b ∷ c ∷ l

-- `data.rstrip(b"\n")`
abbrev pub rstrip_newlines : Bytes → Bytes
rstrip_newlines [] = []
rstrip_newlines (b ∷ l) = unless_last (same_nat b 10) b (rstrip_newlines l)

-- `data.split(b"\n")[-1]`
abbrev pub last_part : Bytes → Bytes
last_part [] = []
last_part (b ∷ l) = let rest = last_part l in if contains_byte 10 (b ∷ l) then rest else b ∷ l

-- `bytes.strip()`: ASCII white space, at both ends
abbrev is_space : ℕ → Bool
is_space b = (leb 9 b && leb b 13) || same_nat b 32

abbrev strip_left : Bytes → Bytes
strip_left [] = []
strip_left (b ∷ l) = let rest = strip_left l in if is_space b then rest else b ∷ l

abbrev strip_right : Bytes → Bytes
strip_right [] = []
strip_right (b ∷ l) = unless_last (is_space b) b (strip_right l)

abbrev pub strip_bytes : Bytes → Bytes
strip_bytes l = strip_right (strip_left l)

abbrev pub read_size : ℕ → ℕ → ℕ
read_size chunk pos = if leb chunk pos then chunk else pos

-- The loop `while pos > 0`, on fuel; the file is not shorter than the fuel.
unfoldable pub read_back : ℕ → ℕ → Bytes → ℕ → Bytes → Bytes
read_back zero chunk file pos data_ = data_
read_back (suc fuel) chunk file pos data_ =
    let size = read_size chunk pos in
    let from = pos - size in
    let more = take size (drop from file) ++ data_ in
    let rest = read_back fuel chunk file from more in
    if same_nat pos 0
    then data_
    else if contains_byte 10 (but_last more) || same_nat from 0
    then more
    else rest

-- The bytes at the end of a file that hold its last line.
unfoldable pub tail_data : ℕ → Bytes → Bytes
unfolding read_back
tail_data chunk file = read_back (length file) chunk file (length file) []
