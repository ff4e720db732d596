-- ===== src/Die/Impact/Counts.antt =====
-- What the traversal records, against what it counts (backend/die/analysis_query.go, `Impact`).
use software_engineering_pla.Shared.{
  ℕ, zero, suc, ◌+◌, ◌≤◌, ◌≡◌, refl, ◌∙◌, ap, inl, inr, true, false, List, [], ◌∷◌, arith, length,
  Bool-cases, if◌then◌else◌,
}
use software_engineering_pla.Die.Text.{Text, text_eq, text_lt, sort_by}
use software_engineering_pla.Die.Text.Order.{text_eq_refl, text_eq_sound}
use software_engineering_pla.Die.Graph.{contains_text}
use software_engineering_pla.Die.Impact.{
  Arc, Search, discover, scan_arc, scan_arcs, scan_front, levels, initial, traverse,
}
use software_engineering_pla.Die.Impact.Bounds.{search_of, keeps}

-- how many of the first are not among the second
abbrev free : List Text → List Text → ℕ
free [] l = 0
free (x ∷ xs) l = let rest = free xs l in if contains_text x l then rest else suc rest

free-cons : (t : Text) (xs l : List Text) → free xs (t ∷ l) ≤ free xs l
free-cons t [] l = omega arith
free-cons t (x ∷ xs) l = ground (arith, free-cons t xs l)

free-less :
    (t : Text) (xs l : List Text)
    → contains_text t xs ≡ true
    → contains_text t l ≡ false
    → suc (free xs (t ∷ l)) ≤ free xs l
free-less t [] l h n = absurd (ground arith)
free-less t (x ∷ xs) l h n = elim (Bool-cases (text_eq x t)) [
  | inl e ↦
      let same = text_eq_sound x t e in
      let out : contains_text x l ≡ false = ap (λ y. contains_text y l) same ∙ n in
      let own : text_eq t x ≡ true = ap (text_eq t) same ∙ text_eq_refl t in
      ground (arith, out, own, free-cons t xs l)
  | inr e ↦
      let rest : contains_text t xs ≡ true = ground (arith, h, e) in
      ground (arith, free-less t xs l rest n)
]

free_none :
    (xs l : List Text)
    → ((x : Text) → contains_text x xs ≡ true → contains_text x l ≡ true)
    → free xs l ≡ 0
free_none [] l h = refl
free_none (x ∷ xs) l h =
    let own : contains_text x l ≡ true = h x (rw (text_eq_refl x) refl) in
    let rest = free_none xs l (λ y m. h y (ground (arith, m))) in ground (arith, own, rest)

-- each edge is from an arc that was scanned, and each node with a depth, or seed, is one that was seen
pub record IsCounted (seeds : ℕ) (s : Search) : Type 0 where
  pub recorded : length s.edges ≤ s.scanned
  pub reached : length s.reached + seeds ≡ length s.local_seen
  pub apart : length s.local_seen + free s.seen s.local_seen ≤ length s.seen

module _ (seeds : ℕ) where
  discover-IsCounted :
      (d : ℕ) (s : Search) (a : Arc)
      → contains_text a.target s.seen ≡ true
      → suc (length s.edges) ≤ s.scanned
      → length s.reached + seeds ≡ length s.local_seen
      → length s.local_seen + free s.seen s.local_seen ≤ length s.seen
      → IsCounted seeds (discover d s a)
  unfolding discover
  discover-IsCounted d s a h n m k = elim (Bool-cases (contains_text a.target s.local_seen)) [
    | inl e ↦ ground (arith, e, n, m, k)
    | inr e ↦
        let less = free-less a.target s.seen s.local_seen h e in ground (arith, e, n, m, k, less)
  ]

  module _ (max_nodes max_edges : ℕ) where
    scan_arc-IsCounted :
        (d : ℕ) (s : Search) (a : Arc)
        → IsCounted seeds s
        → IsCounted seeds (search_of (scan_arc max_nodes max_edges d s a))
    unfolding scan_arc
    scan_arc-IsCounted d s a w = elim (Bool-cases (contains_text a.target s.seen)) [
      | inl e ↦
          let next =
            discover-IsCounted d (record s { scanned = s.scanned + 1 }) a e
              (omega (arith, w.recorded)) w.reached w.apart in
          ground (arith, e, next, w)
      | inr e ↦
          let next =
            discover-IsCounted d
              (record s {
                scanned = s.scanned + 1;
                seen = a.target ∷ s.seen;
                visited = s.visited + 1;
              })
              a (rw (text_eq_refl a.target) refl) (omega (arith, w.recorded)) w.reached
              (ground (arith, w.apart)) in
          ground (arith, e, next, w)
    ]

    scan_arcs-IsCounted :
        (d : ℕ) (s : Search) (as' : List Arc)
        → IsCounted seeds s
        → IsCounted seeds (search_of (scan_arcs max_nodes max_edges d s as'))
    unfolding scan_arcs
    scan_arcs-IsCounted d s [] w = w
    scan_arcs-IsCounted d s (a ∷ rest) w =
        keeps (IsCounted seeds) (scan_arc max_nodes max_edges d s a)
          (λ t. scan_arcs max_nodes max_edges d t rest) (scan_arc-IsCounted d s a w)
          (λ t v. scan_arcs-IsCounted d t rest v)

    module _ (adjacent : Text → List Arc) where
      scan_front-IsCounted :
          (d : ℕ) (s : Search) (front : List Text)
          → IsCounted seeds s
          → IsCounted seeds (search_of (scan_front max_nodes max_edges adjacent d s front))
      unfolding scan_front
      scan_front-IsCounted d s [] w = w
      scan_front-IsCounted d s (id ∷ front) w =
          keeps (IsCounted seeds) (scan_arcs max_nodes max_edges d s (adjacent id))
            (λ t. scan_front max_nodes max_edges adjacent d t front)
            (scan_arcs-IsCounted d s (adjacent id) w) (λ t v. scan_front-IsCounted d t front v)

      levels-IsCounted :
          (left d : ℕ) (s : Search) (front : List Text)
          → IsCounted seeds s
          → IsCounted seeds (search_of (levels max_nodes max_edges adjacent left d s front))
      unfolding levels
      levels-IsCounted left d s [] w = w
      levels-IsCounted zero d s (id ∷ front) w = w
      levels-IsCounted (suc left) d s (id ∷ front) w =
          keeps (IsCounted seeds)
            (scan_front max_nodes max_edges adjacent d (record s { next = [] }) (id ∷ front))
            (λ t. levels max_nodes max_edges adjacent left (d + 1) t (sort_by text_lt t.next))
            (scan_front-IsCounted d (record s { next = [] }) (id ∷ front)
              (record { recorded = w.recorded; reached = w.reached; apart = w.apart }))
            (λ t v. levels-IsCounted left (d + 1) t (sort_by text_lt t.next) v)

pub traverse-IsCounted :
    (max_nodes max_edges max_depth : ℕ) (adjacent : Text → List Arc) (seeds : List Text)
    → IsCounted (length seeds) (search_of (traverse max_nodes max_edges max_depth adjacent seeds))
unfolding traverse
traverse-IsCounted max_nodes max_edges max_depth adjacent seeds =
    let none_free = free_none seeds seeds (λ x h. h) in
    levels-IsCounted (length seeds) max_nodes max_edges adjacent max_depth 0 (initial seeds) seeds
      (record { recorded = omega arith; reached = omega arith; apart = omega (arith, none_free) })
