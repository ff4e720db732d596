-- ===== src/Die/Impact.antt =====
-- The bounded traversal (backend/die/analysis_query.go: `Impact`).
--
-- The search is written over the adjacency that the index gives for the query's graph and direction:
-- an `Arc` is an edge's identifier, its other endpoint, and whether the edge is eligible. A set is
-- the list of its members. The depth left is the fuel: the loop stops by itself at `MaxDepth`.
pub mod Sets
pub mod Bounds
pub mod Counts
pub mod Walks
pub mod Stage
pub mod Scan
pub mod Report
pub mod Reachability
pub mod Samples
use software_engineering_pla.Shared.{
  ℕ, zero, suc, ◌+◌, Bool, true, false, not, ◌&&◌, ◌||◌, List, [], ◌∷◌, ◌++◌, map, ltb, ◌==◌,
  if◌then◌else◌, length,
}
use software_engineering_pla.Die.Text.{Text, text, text_eq, text_lt, sort_by}
use software_engineering_pla.Die.Model.{
  Result, ok, err, ◌>>=◌, ◌>>◌, require, DependencyEdge, or_default,
}
use software_engineering_pla.Die.Limits.{
  AnalysisConfig, TraversalDirection, dependencies, dependents, ImpactQuery, invalid_query,
}
use software_engineering_pla.Die.Graph.{
  Inventory, GraphIndex, index, is_local, eligible, out_edges, in_edges, contains_text,
}

pub record Arc : Type 0 where
  pub id : Text
  pub target : Text
  pub is_eligible : Bool

abbrev pub arc_of : GraphIndex → TraversalDirection → DependencyEdge → Arc
arc_of x dependencies e = record { id = e.id; target = e.to_node_id; is_eligible = eligible x e }
arc_of x dependents e = record { id = e.id; target = e.from_node_id; is_eligible = eligible x e }

abbrev pub edges_at : GraphIndex → Text → TraversalDirection → Text → List DependencyEdge
edges_at x graph dependencies id = out_edges x graph id
edges_at x graph dependents id = in_edges x graph id

unfoldable pub arcs : GraphIndex → Text → TraversalDirection → Text → List Arc
arcs x graph direction id = map (arc_of x direction) (edges_at x graph direction id)

abbrev pub add : Text → List Text → List Text
add t ts = if contains_text t ts then ts else t ∷ ts

abbrev pub remove : Text → List Text → List Text
remove t [] = []
remove t (x ∷ xs) = let rest = remove t xs in if text_eq x t then rest else x ∷ rest

pub data Reason : Type 0 where
  depth_limit edge_limit node_limit : Reason

-- the variables of the loops; `next` is the next front in the order of discovery
pub record Search : Type 0 where
  pub seen : List Text
  pub local_seen : List Text
  pub boundary : List Text
  pub edges : List Text
  pub reached : List (Text × ℕ)
  pub visited : ℕ
  pub scanned : ℕ
  pub max_depth_reached : ℕ
  pub next : List Text

-- `break outer` with its reason, or on with the loop
pub data Progress : Type 0 where
  running : Search → Progress
  stopped : Reason → Search → Progress

-- the part of the round behind the limits: the target has been seen
unfoldable pub discover : ℕ → Search → Arc → Search
discover depth s arc =
    let t : Search =
      if arc.is_eligible && not (contains_text arc.target s.local_seen)
      then record s {
        local_seen = arc.target ∷ s.local_seen;
        boundary = remove arc.target s.boundary;
        reached = (arc.target, depth + 1) ∷ s.reached;
        next = arc.target ∷ s.next;
        max_depth_reached =
            if ltb s.max_depth_reached (depth + 1) then depth + 1 else s.max_depth_reached;
      }
      else (if not arc.is_eligible && not (contains_text arc.target s.local_seen)
          then record s { boundary = add arc.target s.boundary }
          else s) in
    record t { edges = add arc.id t.edges }

module _ (max_nodes max_edges : ℕ) where
  unfoldable pub scan_arc : ℕ → Search → Arc → Progress
  unfolding discover
  scan_arc depth s arc =
      if s.scanned == max_edges
      then stopped edge_limit s
      else let t = record s { scanned = s.scanned + 1 } in
        if contains_text arc.target t.seen
        then running (discover depth t arc)
        else if t.visited == max_nodes
        then stopped node_limit t
        else running
            (discover depth (record t { seen = arc.target ∷ t.seen; visited = t.visited + 1 }) arc)

  unfoldable pub scan_arcs : ℕ → Search → List Arc → Progress
  scan_arcs depth s [] = running s
  scan_arcs depth s (a ∷ rest) = elim (scan_arc depth s a) [
    | stopped reason t ↦ stopped reason t
    | running t ↦ scan_arcs depth t rest
  ]

  module _ (adjacent : Text → List Arc) where
    unfoldable pub scan_front : ℕ → Search → List Text → Progress
    scan_front depth s [] = running s
    scan_front depth s (id ∷ front) = elim (scan_arcs depth s (adjacent id)) [
      | stopped reason t ↦ stopped reason t
      | running t ↦ scan_front depth t front
    ]

    -- the loop over depths: `left` is what `MaxDepth` still allows
    unfoldable pub levels : ℕ → ℕ → Search → List Text → Progress
    levels left depth s [] = running s
    levels zero depth s (id ∷ front) = stopped depth_limit s
    levels (suc left) depth s (id ∷ front) =
        elim (scan_front depth (record s { next = [] }) (id ∷ front)) [
          | stopped reason t ↦ stopped reason t
          | running t ↦ levels left (depth + 1) t (sort_by text_lt t.next)
        ]

-- the seeds of a checked query have no duplicates, so the set `seen` has as many members
abbrev pub initial : List Text → Search
initial seeds = record {
  seen = seeds;
  local_seen = seeds;
  boundary = [];
  edges = [];
  reached = [];
  visited = length seeds;
  scanned = 0;
  max_depth_reached = 0;
  next = [];
}

-- the loop from the seeds
unfoldable pub traverse : ℕ → ℕ → ℕ → (Text → List Arc) → List Text → Progress
unfolding levels
traverse max_nodes max_edges max_depth adjacent seeds =
    levels max_nodes max_edges adjacent max_depth 0 (initial seeds) seeds

all_local : GraphIndex → Text → List Text → Bool
all_local x graph [] = true
all_local x graph (id ∷ ids) = is_local x graph id && all_local x graph ids

-- the query with the configured limits in place of zeros
abbrev pub with_defaults : AnalysisConfig → ImpactQuery → ImpactQuery
with_defaults c q = record q {
  max_nodes = or_default q.max_nodes c.max_traversal_nodes;
  max_edges = or_default q.max_edges c.max_traversal_edges;
  max_depth = or_default q.max_depth c.max_traversal_depth;
}

abbrev pub reached_less : Text × ℕ → Text × ℕ → Bool
reached_less a b = if not (a.1 == b.1) then ltb a.1 b.1 else text_lt a.0 b.0

-- without the query's own fields, the digest and the graph's summary with the reason codes
pub record ImpactResult : Type 0 where
  pub seeds : List Text
  pub reached : List (Text × ℕ)
  pub boundary_node_ids : List Text
  pub edge_ids : List Text
  pub visited_nodes : ℕ
  pub scanned_edges : ℕ
  pub max_depth_reached : ℕ
  pub truncated : Bool

abbrev pub result_of : List Text → Search → Bool → ImpactResult
result_of seeds s truncated = record {
  seeds = seeds;
  reached = sort_by reached_less s.reached;
  boundary_node_ids = sort_by text_lt s.boundary;
  edge_ids = sort_by text_lt s.edges;
  visited_nodes = s.visited;
  scanned_edges = s.scanned;
  max_depth_reached = s.max_depth_reached;
  truncated = truncated;
}

abbrev pub report : List Text → Progress → ImpactResult
report seeds (running s) = result_of seeds s false
report seeds (stopped _ s) = result_of seeds s true

unfoldable pub impact :
    (Text → Text) → AnalysisConfig → Inventory → ImpactQuery → Result ImpactResult
unfolding all_local
impact sha256_hex c v q = do
  let p = with_defaults c q
  require
      (not (
        ltb c.max_traversal_nodes p.max_nodes
        || (ltb c.max_traversal_edges p.max_edges
            || (ltb c.max_traversal_depth p.max_depth || ltb p.max_nodes (length p.node_ids)))))
      invalid_query
  x ← index sha256_hex c v
  require (all_local x p.graph p.node_ids) invalid_query
  ok (
      report p.node_ids
        (traverse p.max_nodes p.max_edges p.max_depth (arcs x p.graph p.direction) p.node_ids))
