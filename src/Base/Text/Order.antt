-- ===== src/Base/Text/Order.antt =====
-- The order of texts is strict and total.
use Prim.Native.Char.{Char, code}
use Prim.Native.String.{String, [], ◌∷◌}
use mathlib.Core.Path.{◌≡◌, refl}
use mathlib.Core.Bool.{true, false}
use native.Mathlib.Omega.{arith}
use text.Mathlib.TextEquality.{codes_equal}
use text.Mathlib.TextPositions.{compare_self}
use sudo_agent.Base.Tests.{ltb}
use sudo_agent.Base.Text.{precedes}

pub precedes_asym : (s t : String) → precedes s t ≡ true → precedes t s ≡ false
precedes_asym [] [] h = refl
precedes_asym [] (d ∷ t) h = refl
precedes_asym (c ∷ s) [] h = absurd (cc h)
precedes_asym (c ∷ s) (d ∷ t) h = ground (arith, precedes_asym s t)

-- What does not come before `s` but before `u` has `s` before `u`.
pub precedes_after :
    (i s u : String) → precedes i s ≡ false → precedes i u ≡ true → precedes s u ≡ true
precedes_after [] [] u h g = g
precedes_after [] (c ∷ s) u h g = absurd (cc h)
precedes_after (c ∷ i) s [] h g = absurd (cc g)
precedes_after (c ∷ i) [] (e ∷ u) h g = refl
precedes_after (c ∷ i) (d ∷ s) (e ∷ u) h g = ground (arith, precedes_after i s u)

codes_apart :
    (c d : Char) → ltb (code c) (code d) ≡ false → ltb (code d) (code c) ≡ false → code c ≡ code d
codes_apart c d h g = ground arith

same_code : (c d : Char) → code c ≡ code d → c ≡ d
same_code c d e = codes_equal c d (rw e (compare_self (code d)))

cons-eq : (c d : Char) (s t : String) → c ≡ d → s ≡ t → (c ∷ s) ≡ (d ∷ t)
cons-eq c d s t h g = cc (h, g)

pub precedes_total : (s t : String) → precedes s t ≡ false → precedes t s ≡ false → s ≡ t
precedes_total [] [] h g = refl
precedes_total [] (d ∷ t) h g = absurd (cc h)
precedes_total (c ∷ s) [] h g = absurd (cc g)
precedes_total (c ∷ s) (d ∷ t) h g =
    cons-eq c d s t (same_code c d (codes_apart c d (ground arith) (ground arith)))
      (precedes_total s t (ground arith) (ground arith))
