-- ===== src/Base/Dict.antt =====
-- Python's `dict` with text keys, in insertion order.
use Prim.Native.String.{String}
use mathlib.Core.Path.{◌≡◌, refl}
use mathlib.Core.Bool.{Bool, true, false}
use mathlib.Core.Option.{Option, none, some}
use mathlib.Core.List.{List, [], ◌∷◌}
use native.Mathlib.Omega.{arith}
use text.Mathlib.Text.{◌==◌}
use text.Mathlib.TextEquality.{eq_iff}
use sudo_agent.Base.Tests.{if◌then◌else◌, is_some}

abbrev pub Dict {ℓ} : Type ℓ → Type ℓ
Dict V = List (String × V)

module _ {ℓ} {V : Type ℓ} where
  -- `d.get(k)`
  abbrev pub lookup : String → Dict V → Option V
  lookup k [] = none
  lookup k ((j, v) ∷ d) = if j == k then some v else lookup k d

  -- `k in d`
  abbrev pub contains : String → Dict V → Bool
  contains k d = is_some (lookup k d)

  -- `d[k] = v`
  abbrev pub insert : String → V → Dict V → Dict V
  insert k v [] = (k, v) ∷ []
  insert k v ((j, w) ∷ d) = if j == k then (j, v) ∷ d else (j, w) ∷ insert k v d

  -- `del d[k]`, `d.pop(k, None)`
  abbrev pub erase : String → Dict V → Dict V
  erase k [] = []
  erase k ((j, w) ∷ d) = if j == k then d else (j, w) ∷ erase k d

  -- `{k: v for k, v in d.items() if keep(v)}`
  abbrev pub keep : (V → Bool) → Dict V → Dict V
  keep p [] = []
  keep p ((j, w) ∷ d) = let rest = keep p d in if p w then (j, w) ∷ rest else rest

  -- What a real dict is: no key stands twice.
  abbrev pub NodupKeys : Dict V → Type ℓ
  NodupKeys [] = Unit
  NodupKeys ((k, _) ∷ d) = (lookup k d ≡ none) × NodupKeys d

  pub lookup-insert :
      (k j : String) (v : V) (d : Dict V)
      → lookup j (insert k v d) ≡ (if k == j then some v else lookup j d)
  lookup-insert k j v [] = refl
  lookup-insert k j v ((i, w) ∷ d) =
      ground (arith, eq_iff k j, eq_iff i k, eq_iff i j, lookup-insert k j v d)

  pub lookup-erase_ne :
      (k j : String) (d : Dict V) → (k == j) ≡ false → lookup j (erase k d) ≡ lookup j d
  lookup-erase_ne k j [] h = refl
  lookup-erase_ne k j ((i, w) ∷ d) h =
      ground (arith, eq_iff k j, eq_iff i k, eq_iff i j, lookup-erase_ne k j d h)

  pub lookup-erase_self : (k : String) (d : Dict V) → NodupKeys d → lookup k (erase k d) ≡ none
  lookup-erase_self k [] u = refl
  lookup-erase_self k ((i, w) ∷ d) (fresh, u) = ground (arith, eq_iff i k, lookup-erase_self k d u)

  pub insert-NodupKeys : (k : String) (v : V) (d : Dict V) → NodupKeys d → NodupKeys (insert k v d)
  insert-NodupKeys k v [] u = (refl, tt)
  insert-NodupKeys k v ((i, w) ∷ d) (fresh, u) =
      ground (arith, eq_iff i k, eq_iff k i, insert-NodupKeys k v d u, lookup-insert k i v d)

  pub erase-NodupKeys : (k : String) (d : Dict V) → NodupKeys d → NodupKeys (erase k d)
  erase-NodupKeys k [] u = tt
  erase-NodupKeys k ((i, w) ∷ d) (fresh, u) =
      ground (arith, eq_iff k i, eq_iff i k, erase-NodupKeys k d u, lookup-erase_ne k i d)

  -- A key that was absent stays absent when entries are dropped.
  pub lookup-keep-none :
      (p : V → Bool) (k : String) (d : Dict V) → lookup k d ≡ none → lookup k (keep p d) ≡ none
  lookup-keep-none p k [] h = refl
  lookup-keep-none p k ((i, w) ∷ d) h = ground (arith, lookup-keep-none p k d)

  pub keep-NodupKeys : (p : V → Bool) (d : Dict V) → NodupKeys d → NodupKeys (keep p d)
  keep-NodupKeys p [] u = tt
  keep-NodupKeys p ((i, w) ∷ d) (fresh, u) =
      ground (arith, keep-NodupKeys p d u, lookup-keep-none p i d fresh)

  -- An entry is found after the cut exactly if it was there and passes the test.
  pub lookup-keep :
      (p : V → Bool) (k : String) (d : Dict V)
      → NodupKeys d
      → lookup k (keep p d)
        ≡ elim (lookup k d) [ none ↦ none | some v ↦ if p v then some v else none ]
  lookup-keep p k [] u = refl
  lookup-keep p k ((i, w) ∷ d) (fresh, u) =
      ground (arith, eq_iff i k, lookup-keep p k d u, lookup-keep-none p k d)

  -- What is found after the cut was there before it.
  pub lookup_of_keep :
      (p : V → Bool) (k : String) (d : Dict V) {v : V}
      → NodupKeys d
      → lookup k (keep p d) ≡ some v
      → lookup k d ≡ some v
  lookup_of_keep p k d u h = ground (arith, lookup-keep p k d u)

  -- A weaker cut made first is not seen after a stronger one.
  pub keep-keep :
      (p q : V → Bool) (d : Dict V)
      → ((v : V) → p v ≡ true → q v ≡ true)
      → keep p (keep q d) ≡ keep p d
  keep-keep p q [] h = refl
  keep-keep p q ((i, w) ∷ d) h = ground (arith, h w, keep-keep p q d h)
