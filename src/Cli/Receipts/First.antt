-- ===== src/Cli/Receipts/First.antt =====
-- cli.py, `_cmd_receipt`: which entry the loop finds.
use sudo_agent.Base.{
  ℕ, suc, ◌+◌, ◌≡◌, refl, Bool, true, false, Option, none, some, List, [], ◌∷◌, ◌++◌, arith, eq_iff,
  if◌then◌else◌, ap,
}
use sudo_agent.Base.Lists.{length}
use sudo_agent.Value.{
  Value, null, bool, int, float, decimal, str, bytes, list, tuple, dict, mixed_dict, other, Fields,
  is_text, is_text-str,
}
use sudo_agent.Value.Dict.{get}
use sudo_agent.Cli.{Failure, attribute_error, Item, yields, fails}
use sudo_agent.Cli.Receipts.{
  Target, by_request_id, by_decision_hash, Search, found, missing, failed, is_target, decision_in,
  match_in, or_later, find_decision,
}

abbrev pub Asks : Target → Fields → Fields → Type 0
Asks (by_request_id x) e decision = get "request_id" e ≡ str x
Asks (by_decision_hash x) e decision = get "decision_hash" decision ≡ str x

-- The entry is a decision, and the one that is looked for.
abbrev pub Matches : Target → Fields → Fields → Type 0
Matches t e decision =
    (get "event" e ≡ str "decision") × (get "decision" e ≡ dict decision) × Asks t e decision

-- The loop goes on after this item: it is an entry, and not the one that is looked for.
abbrev pub Passes : Target → Item → Type 0
Passes t (yields (dict e)) = (decision : Fields) → ¬ Matches t e decision
Passes t i = ⊥

abbrev pub AllPass : Target → List Item → Type 0
AllPass t [] = Unit
AllPass t (i ∷ items) = Passes t i × AllPass t items

-- The loop ends at this item with an error.
abbrev pub FailsWith : Failure → Item → Type 0
FailsWith f (fails g) = f ≡ g
FailsWith f (yields (dict e)) = ⊥
FailsWith f (yields v) = f ≡ attribute_error

-- The item in the place after `earlier` is the first one that the loop does not pass.
abbrev pub Ends : Target → List Item → List Item → Item → Type 0
Ends t items earlier i = AllPass t earlier × ((later : List Item) × (items ≡ earlier ++ i ∷ later))

abbrev pub Explains : Target → ℕ → List Item → Search → Type 0
Explains t n items (found idx e decision) =
    (earlier : List Item) × (idx ≡ n + length earlier)
    × Matches t e decision
    × Ends t items earlier (yields (dict e))
Explains t n items missing = AllPass t items
Explains t n items (failed f) =
    (earlier : List Item) × (i : Item) × FailsWith f i × Ends t items earlier i

is_target-Asks :
    (t : Target) (e decision : Fields) → is_target t e decision ≡ true → Asks t e decision
is_target-Asks (by_request_id x) e decision h = is_text-str _ x h
is_target-Asks (by_decision_hash x) e decision h = is_text-str _ x h

Asks-is_target :
    (t : Target) (e decision : Fields) → Asks t e decision → is_target t e decision ≡ true
Asks-is_target (by_request_id x) e decision h = rw h (ground (arith, eq_iff x x))
Asks-is_target (by_decision_hash x) e decision h = rw h (ground (arith, eq_iff x x))

if_some :
    {A : Type 0} (b : Bool) (m : Option A) {x : A}
    → (if b then m else none) ≡ some x
    → (b ≡ true) × (m ≡ some x)
if_some true m h = (refl, h)
if_some false m h = absurd (cc h)

decision_in-some :
    (t : Target) (e decision : Fields) (v : Value)
    → decision_in t e v ≡ some decision
    → (v ≡ dict decision) × Asks t e decision
decision_in-some t e decision (dict d) h =
    let (asked, same) = if_some (is_target t e d) (some d) h in
    (cc same, is_target-Asks t e decision (cc (asked, same)))
decision_in-some t e decision null h = absurd (cc h)
decision_in-some t e decision (bool b) h = absurd (cc h)
decision_in-some t e decision (int n) h = absurd (cc h)
decision_in-some t e decision (float x) h = absurd (cc h)
decision_in-some t e decision (decimal x) h = absurd (cc h)
decision_in-some t e decision (str x) h = absurd (cc h)
decision_in-some t e decision (bytes n) h = absurd (cc h)
decision_in-some t e decision (list l) h = absurd (cc h)
decision_in-some t e decision (tuple l) h = absurd (cc h)
decision_in-some t e decision mixed_dict h = absurd (cc h)
decision_in-some t e decision (other n b) h = absurd (cc h)

pub match_in-Matches :
    (t : Target) (e decision : Fields) → match_in t e ≡ some decision → Matches t e decision
match_in-Matches t e decision h =
    let (event, h') = if_some (is_text (get "event" e) "decision") _ h in
    let (at_decision, asked) = decision_in-some t e decision (get "decision" e) h' in
    (is_text-str _ "decision" event, at_decision, asked)

Matches-match_in :
    (t : Target) (e decision : Fields) → Matches t e decision → match_in t e ≡ some decision
Matches-match_in t e decision (event, at_decision, asked) =
    rw (event, at_decision, Asks-is_target t e decision asked) refl

Explains-after :
    (t : Target) (n : ℕ) (i : Item) (items : List Item) (s : Search)
    → Passes t i
    → Explains t (suc n) items s
    → Explains t n (i ∷ items) s
Explains-after t n i items missing p h = (p, h)
Explains-after t n i items (found idx e decision) p (earlier, position, h, (all, (later, split))) =
    (i ∷ earlier, ground (arith, position), h, ((p, all), (later, ap (◌∷◌ i) split)))
Explains-after t n i items (failed f) p (earlier, j, h, (all, (later, split))) =
    (i ∷ earlier, j, h, ((p, all), (later, ap (◌∷◌ i) split)))

Explains-entry :
    (t : Target) (n : ℕ) (e : Fields) (items : List Item) (rest : Search) (m : Option Fields)
    → match_in t e ≡ m
    → Explains t (suc n) items rest
    → Explains t n (yields (dict e) ∷ items) (or_later n e m rest)
Explains-entry t n e items rest none same h =
    Explains-after t n (yields (dict e)) items rest
      (λ d k. absurd (cc (same, Matches-match_in t e d k))) h
Explains-entry t n e items rest (some d) same h =
    ([], omega arith, match_in-Matches t e d same, (tt, (items, refl)))

-- The loop finds an entry exactly where it is the first decision that is looked for, all items before
-- it being entries, and its position counts them from `n`; it finds none where all items are entries
-- and none of them is looked for; and it raises an error at the first item that is no entry, where
-- none before is looked for.
pub find_decision-Explains :
    (t : Target) (n : ℕ) (items : List Item) → Explains t n items (find_decision t n items)
unfolding find_decision
find_decision-Explains t n [] = tt
find_decision-Explains t n (fails f ∷ items) = ([], fails f, refl, (tt, (items, refl)))
find_decision-Explains t n (yields (dict e) ∷ items) =
    Explains-entry t n e items _ (match_in t e) refl (find_decision-Explains t (suc n) items)
find_decision-Explains t n (yields null ∷ items) = ([], yields null, refl, (tt, (items, refl)))
find_decision-Explains t n (yields (bool b) ∷ items) =
    ([], yields (bool b), refl, (tt, (items, refl)))
find_decision-Explains t n (yields (int k) ∷ items) =
    ([], yields (int k), refl, (tt, (items, refl)))
find_decision-Explains t n (yields (float x) ∷ items) =
    ([], yields (float x), refl, (tt, (items, refl)))
find_decision-Explains t n (yields (decimal x) ∷ items) =
    ([], yields (decimal x), refl, (tt, (items, refl)))
find_decision-Explains t n (yields (str x) ∷ items) =
    ([], yields (str x), refl, (tt, (items, refl)))
find_decision-Explains t n (yields (bytes k) ∷ items) =
    ([], yields (bytes k), refl, (tt, (items, refl)))
find_decision-Explains t n (yields (list l) ∷ items) =
    ([], yields (list l), refl, (tt, (items, refl)))
find_decision-Explains t n (yields (tuple l) ∷ items) =
    ([], yields (tuple l), refl, (tt, (items, refl)))
find_decision-Explains t n (yields mixed_dict ∷ items) =
    ([], yields mixed_dict, refl, (tt, (items, refl)))
find_decision-Explains t n (yields (other k b) ∷ items) =
    ([], yields (other k b), refl, (tt, (items, refl)))
