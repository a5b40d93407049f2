-- ===== src/Ledger/Jcs/Order.antt =====
-- The sort of an object's keys: two members can be placed in either order.
use sudo_agent.Base.{
  String, ◌≡◌, refl, sym, ◌∙◌, ap, true, false, List, [], ◌∷◌, ◌==◌, arith, eq_iff, Bool-cases, ◌⊎◌,
  inl, inr,
}
use sudo_agent.Base.Text.{precedes}
use sudo_agent.Base.Text.Order.{precedes_asym, precedes_after, precedes_total}
use sudo_agent.Ledger.Jcs.{Member, place}

-- Of two different keys one comes first.
apart :
    (k j : String)
    → (k == j) ≡ false
    → ((precedes k j ≡ true) × (precedes j k ≡ false))
      ⊎ ((precedes k j ≡ false) × (precedes j k ≡ true))
apart k j d = elim (Bool-cases (precedes k j)) [
  | inl h ↦ inl (h, precedes_asym k j h)
  | inr h ↦ elim (Bool-cases (precedes j k)) [
    | inl g ↦ inr (h, g)
    | inr g ↦ absurd (ground (arith, precedes_total k j h g, eq_iff k j))
  ]
]

place_past :
    (m x : Member) (l : List Member) → precedes x.0 m.0 ≡ true → place m (x ∷ l) ≡ x ∷ place m l
place_past (k, v) (i, x) l h = rw h refl

place_here :
    (m x : Member) (l : List Member) → precedes x.0 m.0 ≡ false → place m (x ∷ l) ≡ m ∷ x ∷ l
place_here (k, v) (i, x) l h = rw h refl

-- The head comes before one of the two.
place_one_past :
    (m n x : Member) (l : List Member)
    → precedes x.0 m.0 ≡ true
    → precedes x.0 n.0 ≡ false
    → place m (place n (x ∷ l)) ≡ place n (place m (x ∷ l))
place_one_past m n x l a b =
    ap (place m) (place_here n x l b)
    ∙ place_past m n (x ∷ l) (precedes_after x.0 n.0 m.0 b a)
    ∙ ap (λ t. n ∷ t) (place_past m x l a)
    ∙ sym (place_here n x (place m l) b)
    ∙ sym (ap (place n) (place_past m x l a))

place_both_past :
    (m n x : Member) (l : List Member)
    → precedes x.0 m.0 ≡ true
    → precedes x.0 n.0 ≡ true
    → place m (place n l) ≡ place n (place m l)
    → place m (place n (x ∷ l)) ≡ place n (place m (x ∷ l))
place_both_past m n x l a b same =
    ap (place m) (place_past n x l b)
    ∙ place_past m x (place n l) a
    ∙ ap (λ t. x ∷ t) same
    ∙ sym (place_past n x (place m l) b)
    ∙ sym (ap (place n) (place_past m x l a))

-- Both stand at the head, the second one first.
place_at_head :
    (m n x : Member) (l : List Member)
    → precedes x.0 m.0 ≡ false
    → precedes x.0 n.0 ≡ false
    → precedes n.0 m.0 ≡ true
    → precedes m.0 n.0 ≡ false
    → place m (place n (x ∷ l)) ≡ place n (place m (x ∷ l))
place_at_head m n x l a b h g =
    ap (place m) (place_here n x l b)
    ∙ place_past m n (x ∷ l) h
    ∙ ap (λ t. n ∷ t) (place_here m x l a)
    ∙ sym (place_here n m (x ∷ l) g)
    ∙ sym (ap (place n) (place_here m x l a))

pub place-place :
    (m n : Member) (l : List Member)
    → (m.0 == n.0) ≡ false
    → place m (place n l) ≡ place n (place m l)
place-place m n [] d = elim (apart m.0 n.0 d) [
  | inl (h, g) ↦ place_here m n [] g ∙ sym (place_past n m [] h)
  | inr (h, g) ↦ place_past m n [] g ∙ sym (place_here n m [] h)
]
place-place m n (x ∷ l) d = elim (Bool-cases (precedes x.0 m.0)) [
  | inl a ↦ elim (Bool-cases (precedes x.0 n.0)) [
    | inl b ↦ place_both_past m n x l a b (place-place m n l d)
    | inr b ↦ place_one_past m n x l a b
  ]
  | inr a ↦ elim (Bool-cases (precedes x.0 n.0)) [
    | inl b ↦ sym (place_one_past n m x l b a)
    | inr b ↦ elim (apart m.0 n.0 d) [
      | inl (h, g) ↦ sym (place_at_head n m x l b a h g)
      | inr (h, g) ↦ place_at_head m n x l a b g h
    ]
  ]
]
