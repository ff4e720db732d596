-- ===== src/Die/Impact/Bounds.antt =====
-- The traversal (backend/die/analysis_query.go, `Impact`) and its limits.
use software_engineering_pla.Shared.{
  ℕ, zero, suc, ◌+◌, ◌≤◌, ◌<◌, ◌≡◌, refl, List, [], ◌∷◌, arith, length, All,
}
use software_engineering_pla.Die.Text.{Text, text_lt, sort_by}
use software_engineering_pla.Die.Impact.{
  Arc, Search, Progress, running, stopped, discover, scan_arc, scan_arcs, scan_front, levels,
  initial, traverse,
}

abbrev pub search_of : Progress → Search
search_of (running s) = s
search_of (stopped _ s) = s

-- within the limits so far, with depths up to `depth`
pub record IsWithin (max_nodes max_edges depth : ℕ) (s : Search) : Type 0 where
  pub nodes : s.visited ≤ max_nodes
  pub counted : s.visited ≡ length s.seen
  pub edges : s.scanned ≤ max_edges
  pub depths : s.max_depth_reached ≤ depth
  pub reached : All (λ r. r.1 ≤ depth) s.reached

-- a property of the search that a part and what follows it keep
pub keeps :
    (P : Search → Type 0) (p : Progress) (k : Search → Progress)
    → P (search_of p)
    → ((t : Search) → P t → P (search_of (k t)))
    → P (search_of (elim p [ stopped reason t ↦ stopped reason t | running t ↦ k t ]))
keeps P (running s) k h f = f s h
keeps P (stopped reason s) k h f = h

module _ (max_nodes max_edges depth : ℕ) where
  abbrev Within : Search → Type 0
  Within = IsWithin max_nodes max_edges depth

  discover-IsWithin :
      (d : ℕ) (s : Search) (a : Arc) → d < depth → Within s → Within (discover d s a)
  unfolding discover
  discover-IsWithin d s a h w = ground arith

  scan_arc-IsWithin :
      (d : ℕ) (s : Search) (a : Arc)
      → d < depth
      → Within s
      → Within (search_of (scan_arc max_nodes max_edges d s a))
  unfolding scan_arc
  scan_arc-IsWithin d s a h w = ground arith

  scan_arcs-IsWithin :
      (d : ℕ) (s : Search) (as' : List Arc)
      → d < depth
      → Within s
      → Within (search_of (scan_arcs max_nodes max_edges d s as'))
  unfolding scan_arcs
  scan_arcs-IsWithin d s [] h w = w
  scan_arcs-IsWithin d s (a ∷ rest) h w =
      keeps Within (scan_arc max_nodes max_edges d s a)
        (λ t. scan_arcs max_nodes max_edges d t rest) (scan_arc-IsWithin d s a h w)
        (λ t v. scan_arcs-IsWithin d t rest h v)

  module _ (adjacent : Text → List Arc) where
    scan_front-IsWithin :
        (d : ℕ) (s : Search) (front : List Text)
        → d < depth
        → Within s
        → Within (search_of (scan_front max_nodes max_edges adjacent d s front))
    unfolding scan_front
    scan_front-IsWithin d s [] h w = w
    scan_front-IsWithin d s (id ∷ front) h w =
        keeps Within (scan_arcs max_nodes max_edges d s (adjacent id))
          (λ t. scan_front max_nodes max_edges adjacent d t front)
          (scan_arcs-IsWithin d s (adjacent id) h w) (λ t v. scan_front-IsWithin d t front h v)

    levels-IsWithin :
        (left d : ℕ) (s : Search) (front : List Text)
        → left + d ≡ depth
        → Within s
        → Within (search_of (levels max_nodes max_edges adjacent left d s front))
    unfolding levels
    levels-IsWithin left d s [] h w = w
    levels-IsWithin zero d s (id ∷ front) h w = w
    levels-IsWithin (suc left) d s (id ∷ front) h w =
        keeps Within
          (scan_front max_nodes max_edges adjacent d (record s { next = [] }) (id ∷ front))
          (λ t. levels max_nodes max_edges adjacent left (d + 1) t (sort_by text_lt t.next))
          (scan_front-IsWithin d (record s { next = [] }) (id ∷ front) (omega arith)
            (record {
              nodes = w.nodes;
              counted = w.counted;
              edges = w.edges;
              depths = w.depths;
              reached = w.reached;
            }))
          (λ t v. levels-IsWithin left (d + 1) t (sort_by text_lt t.next) (omega arith) v)

-- From seeds that are no more than the node limit, the traversal ends, truncated or not, with at most
-- the allowed nodes visited (each counted once per entry of the set of seen nodes), at most the
-- allowed edges scanned, and the greatest depth and every reported depth within the depth limit.
pub traverse-IsWithin :
    (max_nodes max_edges max_depth : ℕ) (adjacent : Text → List Arc) (seeds : List Text)
    → length seeds ≤ max_nodes
    → IsWithin max_nodes max_edges max_depth
        (search_of (traverse max_nodes max_edges max_depth adjacent seeds))
unfolding traverse
traverse-IsWithin max_nodes max_edges max_depth adjacent seeds h =
    levels-IsWithin max_nodes max_edges max_depth adjacent max_depth 0 (initial seeds) seeds
      (omega arith)
      (record {
        nodes = h;
        counted = refl;
        edges = omega arith;
        depths = omega arith;
        reached = tt;
      })
