-- ===== src/Scan/Analysis/Graph.antt =====
-- Cycles of the dependencies, and the visits that look for them (backend/service/repository/scan/model.go:
-- `acyclicCandidates`).
use mathlib.Core.Bool.{false≢true}
use software_engineering_pla.Shared.{
  ℕ, suc, ◌≤◌, ◌<◌, ◌≡◌, refl, sym, ◌∙◌, ap, subst, ◌⊎◌, inl, inr, Bool, true, false, not, ◌||◌,
  List, [], ◌∷◌, ◌==◌, arith, Bool-cases, if◌then◌else◌,
}
use software_engineering_pla.Die.Text.{Text, text_eq, insert}
use software_engineering_pla.Die.Text.Order.{text_eq_sound, text_eq_refl}
use software_engineering_pla.Die.Text.Maps.{lookup-insert}
use software_engineering_pla.Scan.Model.{is_seen}
use software_engineering_pla.Scan.Analysis.{Edges, Colors, edges_of, color}

-- a walk of one edge or more
pub data Walk (edges : Edges) (j : Text) : Text → Type 0 where
  edge : (k : Text) → is_seen k (edges_of edges j) ≡ true → Walk edges j k
  further : (k l : Text) → Walk edges j k → is_seen l (edges_of edges k) ≡ true → Walk edges j l

-- a key from which no walk goes on for ever
pub data Grounded (edges : Edges) : Text → Type 0 where
  ground_of :
      (k : Text)
      → ((d : Text) → is_seen d (edges_of edges k) ≡ true → Grounded edges d)
      → Grounded edges k

abbrev pub Cycle : Edges → Type 0
Cycle edges = (k : Text) × Walk edges k k

-- a walk by its first edge
first_edge :
    {edges : Edges} {j l : Text}
    → Walk edges j l
    → (d : Text) × (is_seen d (edges_of edges j) ≡ true) × ((d ≡ l) ⊎ Walk edges d l)
first_edge (edge k e) = (k, e, inl refl)
first_edge {edges} (further k l w e) =
    let (d, h, rest) = first_edge w in
    (
      d,
      h,
      inr (elim rest [
        | inl same ↦ subst (λ x. Walk edges x l) (sym same) (edge l e)
        | inr v ↦ further k l v e
      ]),
    )

-- No key from which no walk goes on for ever is on a cycle.
pub Grounded-acyclic : (edges : Edges) (k : Text) → Grounded edges k → Walk edges k k → ⊥
Grounded-acyclic edges k (ground_of _ g) w =
    let (d, h, rest) = first_edge w in
    Grounded-acyclic edges d (g d h)
      (elim rest [ inl same ↦ subst (λ x. Walk edges x x) (sym same) w | inr v ↦ further k d v h ])

module _ (states : Colors) (k : Text) (c : ℕ) where
  pub color_same : color (insert k c states) k ≡ c
  color_same = ground (arith, lookup-insert states k k c, text_eq_refl k)

  pub color_other : (j : Text) → text_eq k j ≡ false → color (insert k c states) j ≡ color states j
  color_other j e = ground (arith, lookup-insert states k j c, e)

  -- a key is the one that is set, with its color, or keeps its own
  pub color-insert :
      (j : Text)
      → ((k ≡ j) × (color (insert k c states) j ≡ c))
        ⊎ ((text_eq k j ≡ false) × (color (insert k c states) j ≡ color states j))
  color-insert j = elim (Bool-cases (text_eq k j)) [
    | inl e ↦
        let same = text_eq_sound k j e in
        inl (same, subst (λ x. color (insert k c states) x ≡ c) same color_same)
    | inr e ↦ inr (e, color_other j e)
  ]

text_eq_flip : (a b : Text) → text_eq a b ≡ false → text_eq b a ≡ false
text_eq_flip a b e = elim (Bool-cases (text_eq b a)) [
  | inr n ↦ n
  | inl h ↦ absurd (false≢true (sym e ∙ ap (text_eq a) (text_eq_sound b a h) ∙ text_eq_refl a))
]

abbrev pub is_white : ℕ → Bool
is_white c = not (c == 1 || c == 2)

-- the keys that are not visited
abbrev pub white : Colors → List Text → ℕ
white states [] = 0
white states (k ∷ nodes) =
    let rest = white states nodes in if is_white (color states k) then suc rest else rest

module _ (states : Colors) (k : Text) (c : ℕ) (colored : is_white c ≡ false) where
  pub white-insert : (nodes : List Text) → white (insert k c states) nodes ≤ white states nodes
  white-insert [] = omega arith
  white-insert (j ∷ nodes) = elim (color-insert states k c j) [
    | inl (_, e) ↦ rw e (ground (arith, colored, white-insert nodes))
    | inr (_, e) ↦ rw e (ground (arith, white-insert nodes))
  ]

  pub white-insert_less :
      (nodes : List Text)
      → is_seen k nodes ≡ true
      → is_white (color states k) ≡ true
      → white (insert k c states) nodes < white states nodes
  white-insert_less [] h w = absurd (false≢true h)
  white-insert_less (j ∷ nodes) h w = elim (color-insert states k c j) [
    | inl (same, e) ↦
        let own : is_white (color states j) ≡ true =
          subst (λ x. is_white (color states x) ≡ true) same w in
        rw e (ground (arith, colored, own, white-insert nodes))
    | inr (n, e) ↦
        let later : is_seen k nodes ≡ true = ground (arith, h, text_eq_flip k j n) in
        rw e (ground (arith, white-insert_less nodes later w))
  ]
