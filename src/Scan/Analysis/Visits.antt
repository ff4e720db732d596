-- ===== src/Scan/Analysis/Visits.antt =====
-- The visits that look for a cycle (backend/service/repository/scan/model.go: `acyclicCandidates`).
use mathlib.Core.Bool.{false≢true}
use software_engineering_pla.Shared.{
  ℕ, zero, suc, ◌≤◌, ◌<◌, ◌≡◌, refl, sym, ◌∙◌, ap, subst, ◌⊎◌, inl, inr, Bool, true, false, List,
  [], ◌∷◌, Option, none, some, ◌==◌, ==_iff, arith, All, Bool-cases, length,
}
use software_engineering_pla.Die.Text.{Text, text_eq, insert}
use software_engineering_pla.Die.Text.Order.{text_eq_sound, text_eq_refl}
use software_engineering_pla.Scan.Model.{is_seen}
use software_engineering_pla.Scan.Analysis.{
  Edges, Colors, edges_of, color, Visit, visit_each, leave_key, visit, acyclic_candidates,
}
use software_engineering_pla.Scan.Analysis.Graph.{
  Walk, edge, further, Grounded, ground_of, Cycle, Grounded-acyclic, color_same, color_other,
  color-insert, is_white, white, white-insert, white-insert_less,
}

module _ (edges : Edges) (nodes : List Text) where
  -- the keys that are done lead to no cycle
  abbrev AllGrounded : Colors → Type 0
  AllGrounded states = (k : Text) → color states k ≡ 2 → Grounded edges k

  -- the keys that are being visited lead to this one
  abbrev Leads : Colors → Text → Type 0
  Leads states k = (g : Text) → color states g ≡ 1 → Walk edges g k

  record Progress (states after : Colors) : Type 0 where
    still_done : (j : Text) → color states j ≡ 2 → color after j ≡ 2
    no_more : (g : Text) → color after g ≡ 1 → color states g ≡ 1
    grounded : AllGrounded states → AllGrounded after
    fewer : white after nodes ≤ white states nodes

  -- what a visit of a key returns
  data Visited (states : Colors) (k : Text) : Visit → Type 0 where
    blackens :
        (after : Colors)
        → Progress states after
        → color after k ≡ 2
        → Visited states k (some (true, after))
    closes :
        (after : Colors) → (Leads states k → Cycle edges) → Visited states k (some (false, after))

  -- what the visits of keys return
  data AllVisited (states : Colors) (ks : List Text) : Visit → Type 0 where
    all_black :
        (after : Colors)
        → Progress states after
        → ((d : Text) → is_seen d ks ≡ true → color after d ≡ 2)
        → AllVisited states ks (some (true, after))
    one_closes :
        (after : Colors) (d : Text)
        → is_seen d ks ≡ true
        → (Leads states d → Cycle edges)
        → AllVisited states ks (some (false, after))

  Progress_refl : (states : Colors) → Progress states states
  Progress_refl states = record {
    still_done = λ j e. e;
    no_more = λ g e. e;
    grounded = λ h. h;
    fewer = omega arith;
  }

  Progress_trans : (a b c : Colors) → Progress a b → Progress b c → Progress a c
  Progress_trans a b c p q = record {
    still_done = λ j e. q.still_done j (p.still_done j e);
    no_more = λ g e. p.no_more g (q.no_more g e);
    grounded = λ h. q.grounded (p.grounded h);
    fewer = omega (arith, p.fewer, q.fewer);
  }

  later_AllVisited :
      (states s : Colors) (k : Text) (ks : List Text)
      → Progress states s
      → color s k ≡ 2
      → (o : Visit) → AllVisited s ks o
      → AllVisited states (k ∷ ks) o
  later_AllVisited states s k ks p e o (all_black last q done) =
      all_black last (Progress_trans states s last p q) (λ d m. elim (Bool-cases (text_eq k d)) [
        | inl same ↦ subst (λ x. color last x ≡ 2) (text_eq_sound k d same) (q.still_done k e)
        | inr other ↦ done d (ground (arith, other, m))
      ])
  later_AllVisited states s k ks p e o (one_closes last d m c) =
      one_closes last d (ground (arith, m)) (λ leads. c (λ g h. leads g (p.no_more g h)))

  module _ (v : Colors → Text → Visit) (limit : ℕ)
      (visits : (states : Colors) (k : Text)
        → white states nodes < limit
        → is_seen k nodes ≡ true
        → Visited states k (v states k)) where
    visit_each-AllVisited :
        (states : Colors) (ks : List Text)
        → white states nodes < limit
        → All (λ k. is_seen k nodes ≡ true) ks
        → AllVisited states ks (visit_each v states ks)
    visit_each-AllVisited states [] n h =
        all_black states (Progress_refl states) (λ d e. absurd (false≢true e))
    visit_each-AllVisited states (k ∷ ks) n h =
        first (v states k) (visits states k n h.0)
          (λ s p. visit_each-AllVisited s ks (omega (arith, n, p.fewer)) h.1)
      where
        first :
            (o : Visit)
            → Visited states k o
            → ((s : Colors) → Progress states s → AllVisited s ks (visit_each v s ks))
            → AllVisited states (k ∷ ks) (elim o [
              | none ↦ none
              | some r ↦ elim r.0 [ true ↦ visit_each v r.1 ks | false ↦ some (false, r.1) ]
            ])
        first o (closes s c) next = one_closes s k (ground (arith, text_eq_refl k)) c
        first o (blackens s p e) next =
            later_AllVisited states s k ks p e (visit_each v s ks) (next s p)

  -- a key is gray, its edges are visited, and it is black
  leave_key-Visited :
      (states : Colors) (k : Text) (o : Visit)
      → is_white (color states k) ≡ true
      → AllVisited (insert k 1 states) (edges_of edges k) o
      → Visited states k (leave_key k o)
  leave_key-Visited states k o w (one_closes last d m c) = closes last (λ leads. c (λ g e.
      elim (color-insert states k 1 g) [
        | inl (same, _) ↦ subst (λ x. Walk edges x d) same (edge d m)
        | inr (_, f) ↦ further k d (leads g (sym f ∙ e)) m
      ]))
  leave_key-Visited states k o w (all_black last p done) =
      blackens (insert k 2 last)
        (record {
          still_done = λ j e. elim (color-insert last k 2 j) [
            | inl (_, x) ↦ x
            | inr (n, x) ↦ x ∙ p.still_done j (color_other states k 1 j n ∙ e)
          ];
          no_more = λ g e. elim (color-insert last k 2 g) [
            | inl (_, x) ↦ absurd (omega (arith, x, e))
            | inr (n, x) ↦ sym (color_other states k 1 g n) ∙ p.no_more g (sym x ∙ e)
          ];
          grounded = λ h j e.
              let gray = AllGrounded_gray h in
              elim (color-insert last k 2 j) [
                | inl (same, _) ↦
                    subst (Grounded edges) same (ground_of k (λ d m. p.grounded gray d (done d m)))
                | inr (_, x) ↦ p.grounded gray j (sym x ∙ e)
              ];
          fewer = omega (
            arith,
            p.fewer,
            white-insert last k 2 refl nodes,
            white-insert states k 1 refl nodes,
          );
        })
        (color_same last k 2)
    where
      AllGrounded_gray : AllGrounded states → AllGrounded (insert k 1 states)
      AllGrounded_gray h i q = elim (color-insert states k 1 i) [
        | inl (_, y) ↦ absurd (omega (arith, y, q))
        | inr (_, y) ↦ h i (sym y ∙ q)
      ]

  module _
      (closed : (k : Text)
        → is_seen k nodes ≡ true
        → All (λ d. is_seen d nodes ≡ true) (edges_of edges k)) where
    visit-Visited :
        (fuel : ℕ) (states : Colors) (k : Text)
        → white states nodes < fuel
        → is_seen k nodes ≡ true
        → Visited states k (visit edges fuel states k)
    unfolding visit
    visit-Visited zero states k n h = absurd (omega (arith, n))
    visit-Visited (suc fuel) states k n h = elim (Bool-cases (color states k == 1)) [
      | inl e ↦ rw e (closes states (λ leads. (k, leads k ((==_iff (color states k) 1).0 e))))
      | inr e ↦ elim (Bool-cases (color states k == 2)) [
        | inl f ↦
            rw (e, f) (blackens states (Progress_refl states) ((==_iff (color states k) 2).0 f))
        | inr f ↦
            let w : is_white (color states k) ≡ true = ground (arith, e, f) in
            let less = white-insert_less states k 1 refl nodes h w in
            rw (e, f)
              (leave_key-Visited states k _ w (
                visit_each-AllVisited (visit edges fuel) fuel (λ s j. visit-Visited fuel s j)
                  (insert k 1 states) (edges_of edges k) (omega (arith, less, n)) (closed k h)))
      ]
    ]

    white_none : (ks : List Text) → white [] ks ≡ length ks
    white_none [] = refl
    white_none (k ∷ ks) = ap suc (white_none ks)

    -- Where the nodes are closed under the edges, the order takes nodes, and it takes every key that has an edge,
    -- fuel for one visit more than there are nodes is enough, and the answer decides cycles: it is
    -- `true` and no walk leads from a key to itself, or `false` and there is a cycle.
    pub acyclic_candidates-Cycle :
        (order : List Text)
        → All (λ k. is_seen k nodes ≡ true) order
        → ((k : Text) → (is_seen k order ≡ true) ⊎ (edges_of edges k ≡ []))
        → ((acyclic_candidates (suc (length nodes)) order edges ≡ some true)
            × ((k : Text) → Walk edges k k → ⊥))
          ⊎ ((acyclic_candidates (suc (length nodes)) order edges ≡ some false) × Cycle edges)
    unfolding acyclic_candidates
    acyclic_candidates-Cycle order known covers =
        decide (visit_each (visit edges (suc (length nodes))) [] order) (
          visit_each-AllVisited (visit edges (suc (length nodes))) (suc (length nodes))
            (visit-Visited (suc (length nodes))) [] order (omega (arith, white_none nodes)) known)
      where
        answer : Visit → Option Bool
        answer (some r) = some r.0
        answer none = none

        decide :
            (o : Visit)
            → AllVisited [] order o
            → ((answer o ≡ some true) × ((k : Text) → Walk edges k k → ⊥))
              ⊎ ((answer o ≡ some false) × Cycle edges)
        decide o (all_black s p done) = inl (
          refl,
          λ k w. elim (covers k) [
            | inl m ↦
                let start : AllGrounded [] = λ j e. absurd (omega (arith, e)) in
                Grounded-acyclic edges k (p.grounded start k (done k m)) w
            | inr empty ↦
                Grounded-acyclic edges k
                  (ground_of k
                    (λ d m. absurd (false≢true (subst (λ ks. is_seen d ks ≡ true) empty m))))
                  w
          ],
        )
        decide o (one_closes s d m c) = inr (refl, c (λ g e. absurd (omega (arith, e))))
