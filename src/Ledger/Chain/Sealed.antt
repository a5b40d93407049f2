-- ===== src/Ledger/Chain/Sealed.antt =====
-- ledger/common.py: what the chain's fields of an appended entry are, and what its body is.
use sudo_agent.Base.{sym, ap, ◌∙◌, String, ◌≡◌, refl, false, Option, none, some, arith, ◌==◌}
use sudo_agent.Value.{null, str, Fields, opt_str}
use sudo_agent.Value.Dict.{
  get, set, has, get-set, has-set, set-set, pop-set_new, pop_absent, set-pop,
}
use sudo_agent.Ledger.Chain.{candidate, signed, body}

-- The entry that is written, with its hash and its signature.
abbrev pub sealed : Option (String → String) → Option String → String → Fields → Fields
sealed sign last h e = signed sign h (set "entry_hash" (str h) (candidate last e))

get-signed :
    (k : String) (sign : Option (String → String)) (h : String) (e : Fields)
    → ("entry_signature" == k) ≡ false
    → get k (signed sign h e) ≡ get k e
get-signed k none h e a = refl
get-signed k (some sign) h e a = ground (arith, get-set "entry_signature" k (str (sign h)) e)

pub hash-sealed :
    (sign : Option (String → String)) (last : Option String) (h : String) (e : Fields)
    → get "entry_hash" (sealed sign last h e) ≡ str h
hash-sealed sign last h e =
    get-signed "entry_hash" sign h (set "entry_hash" (str h) (candidate last e)) refl
    ∙ get-set "entry_hash" "entry_hash" (str h) (candidate last e)

pub prev-sealed :
    (sign : Option (String → String)) (last : Option String) (h : String) (e : Fields)
    → get "prev_entry_hash" (sealed sign last h e) ≡ opt_str last
prev-sealed sign last h e =
    get-signed "prev_entry_hash" sign h (set "entry_hash" (str h) (candidate last e)) refl
    ∙ get-set "entry_hash" "prev_entry_hash" (str h) (candidate last e)
    ∙ get-set "entry_hash" "prev_entry_hash" null (set "prev_entry_hash" (opt_str last) e)
    ∙ get-set "prev_entry_hash" "prev_entry_hash" (opt_str last) e

pub signature-sealed :
    (sign : String → String) (last : Option String) (h : String) (e : Fields)
    → get "entry_signature" (sealed (some sign) last h e) ≡ str (sign h)
signature-sealed sign last h e =
    get-set "entry_signature" "entry_signature" (str (sign h))
      (set "entry_hash" (str h) (candidate last e))

unsigned-candidate :
    (last : Option String) (e : Fields)
    → has "entry_signature" e ≡ false
    → has "entry_signature" (candidate last e) ≡ false
unsigned-candidate last e new =
    has-set "entry_hash" "entry_signature" null (set "prev_entry_hash" (opt_str last) e)
    ∙ has-set "prev_entry_hash" "entry_signature" (opt_str last) e
    ∙ new

pub unsigned-sealed :
    (last : Option String) (h : String) (e : Fields)
    → has "entry_signature" e ≡ false
    → has "entry_signature" (sealed none last h e) ≡ false
unsigned-sealed last h e new =
    has-set "entry_hash" "entry_signature" (str h) (candidate last e)
    ∙ unsigned-candidate last e new

-- What is hashed to check the entry is what was hashed to make it.
pub body-sealed :
    (sign : Option (String → String)) (last : Option String) (h : String) (e : Fields)
    → has "entry_signature" e ≡ false
    → body (sealed sign last h e) ≡ candidate last e
body-sealed none last h e new =
    rw
      (
        set-set "entry_hash" null (str h) (candidate last e),
        set-set "entry_hash" null null (set "prev_entry_hash" (opt_str last) e),
      )
      (pop_absent "entry_signature" (candidate last e) (unsigned-candidate last e new))
body-sealed (some sign) last h e new =
    sym (set-pop "entry_hash" "entry_signature" null (sealed (some sign) last h e) refl)
    ∙ ap (set "entry_hash" null) (
        pop-set_new "entry_signature" (str (sign h)) (set "entry_hash" (str h) (candidate last e))
          (unsigned-sealed last h e new))
    ∙ set-set "entry_hash" null (str h) (candidate last e)
    ∙ set-set "entry_hash" null null (set "prev_entry_hash" (opt_str last) e)
