-- ===== src/Die/Direct/Ascending.antt =====
-- The order of the neighbours of a node (backend/die/analysis_query.go, `direct`).
use software_engineering_pla.Shared.{
  ◌≡◌, refl, subst, Bool, true, false, not, ◌&&◌, List, [], ◌∷◌, arith, All, if◌then◌else◌,
  Bool-cases, inl, inr,
}
use software_engineering_pla.Die.Text.{Text, text_eq, text_lt, insert_by, sort_by}
use software_engineering_pla.Die.Text.Order.{text_eq_sound, All-insert_by}
use software_engineering_pla.Die.Model.{DependencyEdge}
use software_engineering_pla.Die.Limits.{TraversalDirection, dependencies, dependents}
use software_engineering_pla.Die.Graph.{GraphIndex, select, out_edges, in_edges}
use software_engineering_pla.Die.Direct.{Neighbor, other_end, collect, turn, neighbors_from}
use software_engineering_pla.Die.Direct.Resume.{Ascending, text_lt_irrefl}

text_lt_trans : (a b c : Text) → text_lt a b ≡ true → text_lt b c ≡ true → text_lt a c ≡ true
text_lt_trans [] [] c h k = absurd (cc)
text_lt_trans [] (y ∷ b) [] h k = absurd (cc)
text_lt_trans [] (y ∷ b) (z ∷ c) h k = refl
text_lt_trans (x ∷ a) [] c h k = absurd (cc)
text_lt_trans (x ∷ a) (y ∷ b) [] h k = absurd (cc)
text_lt_trans (x ∷ a) (y ∷ b) (z ∷ c) h k = ground (arith, text_lt_trans a b c)

-- not below, and different, is above
text_lt_total : (a b : Text) → text_lt a b ≡ false → text_eq b a ≡ false → text_lt b a ≡ true
text_lt_total [] [] h k = absurd (cc)
text_lt_total [] (y ∷ b) h k = absurd (cc)
text_lt_total (x ∷ a) [] h k = refl
text_lt_total (x ∷ a) (y ∷ b) h k = ground (arith, text_lt_total a b)

not_below_trans : (a b c : Text) → text_lt b a ≡ false → text_lt c b ≡ false → text_lt c a ≡ false
not_below_trans [] b [] h k = refl
not_below_trans [] b (z ∷ c) h k = refl
not_below_trans (x ∷ a) [] c h k = absurd (cc)
not_below_trans (x ∷ a) (y ∷ b) [] h k = absurd (cc)
not_below_trans (x ∷ a) (y ∷ b) (z ∷ c) h k = ground (arith, not_below_trans a b c)

All-map {ℓ κ} :
    {A : Type ℓ} {P Q : A → Type κ} → ((a : A) → P a → Q a) → (xs : List A) → All P xs → All Q xs
All-map f [] h = tt
All-map f (x ∷ xs) h = (f x h.0, All-map f xs h.1)

pairwise {ℓ κ} :
    {A : Type ℓ} (P Q : A → Type κ) (xs : List A) → All P xs → All Q xs → All (λ a. P a × Q a) xs
pairwise P Q [] h k = tt
pairwise P Q (x ∷ xs) h k = ((h.0, k.0), pairwise P Q xs h.1 k.1)

module _ (direction : TraversalDirection) where
  abbrev NotBelow : Text → DependencyEdge → Type 0
  NotBelow t e = text_lt (other_end direction e) t ≡ false

  -- edges by their other ends, which may repeat
  abbrev Rising : List DependencyEdge → Type 0
  Rising [] = Unit
  Rising (e ∷ es) = All (NotBelow (other_end direction e)) es × Rising es

  module _ (less : DependencyEdge → DependencyEdge → Bool)
      (below : (a b : DependencyEdge) → less a b ≡ true → NotBelow (other_end direction a) b)
      (above : (a b : DependencyEdge) → less a b ≡ false → NotBelow (other_end direction b) a) where
    insert_by-Rising :
        (a : DependencyEdge) (es : List DependencyEdge) → Rising es → Rising (insert_by less a es)
    insert_by-Rising a [] h = (tt, tt)
    insert_by-Rising a (e ∷ es) h = elim (Bool-cases (less e a)) [
      | inl l ↦ rw l (
        All-insert_by less (NotBelow (other_end direction e)) a es (below e a l) h.0,
        insert_by-Rising a es h.1,
      )
      | inr l ↦ rw l (
        (
          above e a l,
          All-map
              (λ f k.
                not_below_trans (other_end direction a) (other_end direction e)
                  (other_end direction f) (above e a l) k)
              es h.0,
        ),
        h,
      )
    ]

    sort_by-Rising : (es : List DependencyEdge) → Rising (sort_by less es)
    sort_by-Rising [] = tt
    sort_by-Rising (e ∷ es) = insert_by-Rising e (sort_by less es) (sort_by-Rising es)

  abbrev Above : Neighbor → Neighbor → Type 0
  Above n m = text_lt m.node_id n.node_id ≡ true

  abbrev Descending : List Neighbor → Type 0
  Descending [] = Unit
  Descending (n ∷ ns) = All (Above n) ns × Descending ns

  -- the edges to come are not below the last neighbour
  abbrev Follow : List Neighbor → List DependencyEdge → Type 0
  Follow [] es = Unit
  Follow (n ∷ ns) es = All (NotBelow n.node_id) es

  turn-Ascending :
      (ns out : List Neighbor)
      → Descending ns
      → Ascending out
      → All (λ m. All (λ o. Above o m) out) ns
      → Ascending (turn ns out)
  turn-Ascending [] out d a k = a
  turn-Ascending (n ∷ ns) out d a k =
      turn-Ascending ns (n ∷ out) d.1 (k.0, a)
        (pairwise (Above n) (λ m. All (λ o. Above o m) out) ns d.0 k.1)

  nothing_over : (ns : List Neighbor) → All (λ m. All (λ o. Above o m) []) ns
  nothing_over [] = tt
  nothing_over (n ∷ ns) = (tt, nothing_over ns)

  collect_lem :
      (x : GraphIndex) (ns : List Neighbor) (e : DependencyEdge) (es : List DependencyEdge)
      → Descending ns
      → Follow ns (e ∷ es)
      → All (NotBelow (other_end direction e)) es
      → Descending (collect x direction ns e) × Follow (collect x direction ns e) es
  collect_lem x [] e es d f r = ((tt, tt), r)
  collect_lem x (n ∷ ns) e es d f r =
      elim (Bool-cases (text_eq n.node_id (other_end direction e))) [
        | inl s ↦ rw s (d, f.1)
        | inr s ↦
            let up = text_lt_total (other_end direction e) n.node_id f.0 s in
            rw s (
              (
                (
                  up,
                  All-map (λ m k. text_lt_trans m.node_id n.node_id (other_end direction e) k up) ns
                      d.0,
                ),
                d,
              ),
              r,
            )
      ]

  ordered_lem :
      (x : GraphIndex) (ns : List Neighbor) (es : List DependencyEdge)
      → Descending ns
      → Follow ns es
      → Rising es
      → Ascending (neighbors_from x direction ns es)
  unfolding neighbors_from
  ordered_lem x ns [] d f r = turn-Ascending ns [] d tt (nothing_over ns)
  ordered_lem x ns (e ∷ es) d f r =
      let (d', f') = collect_lem x ns e es d f r.0 in
      ordered_lem x (collect x direction ns e) es d' f' r.1

text_lt_asym : (a b : Text) → text_lt a b ≡ true → text_lt b a ≡ false
text_lt_asym a b h = elim (Bool-cases (text_lt b a)) [
  | inr e ↦ e
  | inl e ↦ absurd (ground (arith, text_lt_trans a b a h e, text_lt_irrefl a))
]

equal_not_below : (a b : Text) → text_eq a b ≡ true → text_lt b a ≡ false
equal_not_below a b e = subst (λ t. text_lt t a ≡ false) (text_eq_sound a b e) (text_lt_irrefl a)

-- the order of an adjacency list: other ends first, then identifiers
first_below :
    (a b : Text) (l : Bool)
    → (if not (text_eq a b) then text_lt a b else l) ≡ true
    → text_lt b a ≡ false
first_below a b l h = elim (Bool-cases (text_eq a b)) [
  | inl e ↦ equal_not_below a b e
  | inr e ↦ text_lt_asym a b (ground arith)
]

first_above :
    (a b : Text) (l : Bool)
    → (if not (text_eq a b) then text_lt a b else l) ≡ false
    → text_lt a b ≡ false
first_above a b l h = elim (Bool-cases (text_eq a b)) [
  | inl e ↦ subst (λ t. text_lt a t ≡ false) (text_eq_sound a b e) (text_lt_irrefl a)
  | inr e ↦ ground arith
]

-- The neighbours collected from the sorted edges of a node, in either direction, ascend strictly by
-- their identifiers, so each is listed once.
pub neighbors_from-Ascending :
    (x : GraphIndex) (graph id : Text)
    → Ascending (neighbors_from x dependencies [] (out_edges x graph id))
      × Ascending (neighbors_from x dependents [] (in_edges x graph id))
unfolding out_edges in_edges
neighbors_from-Ascending x graph id = (
  ordered_lem dependencies x [] (out_edges x graph id) tt tt (
      sort_by-Rising dependencies
        (λ a b.
          if not (text_eq a.to_node_id b.to_node_id)
          then text_lt a.to_node_id b.to_node_id
          else text_lt a.id b.id)
        (λ a b h. first_below a.to_node_id b.to_node_id (text_lt a.id b.id) h)
        (λ a b h. first_above a.to_node_id b.to_node_id (text_lt a.id b.id) h)
        (select (λ e. text_eq e.graph graph && text_eq e.from_node_id id) x.edges)),
  ordered_lem dependents x [] (in_edges x graph id) tt tt (
      sort_by-Rising dependents
        (λ a b.
          if not (text_eq a.from_node_id b.from_node_id)
          then text_lt a.from_node_id b.from_node_id
          else text_lt a.id b.id)
        (λ a b h. first_below a.from_node_id b.from_node_id (text_lt a.id b.id) h)
        (λ a b h. first_above a.from_node_id b.from_node_id (text_lt a.id b.id) h)
        (select (λ e. text_eq e.graph graph && text_eq e.to_node_id id) x.edges)),
)
