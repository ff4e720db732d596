-- ===== src/Die/Normalize/Edges.antt =====
-- Containment and dependency edges (backend/die/implementation.go: `normalizeContainment`,
-- `normalizeEdges`).
use software_engineering_pla.Shared.{ℕ, ◌+◌, Bool, ◌&&◌, List, [], ◌∷◌, ◌++◌, none, some}
use software_engineering_pla.Die.Text.{Text, sort_by, lookup, insert}
use software_engineering_pla.Die.Model.{
  Error, error, invalid_input, integrity, Result, ok, err, ◌>>=◌, ◌>>◌, require, valid_graph,
  valid_dependency, valid_containment, valid_resolution, ContainmentCandidate, DependencyCandidate,
  ContainmentEdge, DependencyEdge, Config,
}
use software_engineering_pla.Die.Evidence.{normalize_evidence, limited}
use software_engineering_pla.Die.Identity.{
  normalize_identity, identity_key, edge_id, containment_id,
}
use software_engineering_pla.Die.Normalize.{
  no_limit, checkpoint, containment_less, edge_less, keep_evidence,
}

-- `nodes[identityKey(v)]`, or the error of a missing node
abbrev pub find_node : List (Text × Text) → Text → Error → Result Text
find_node nodes key missing = elim (lookup key nodes) [ some id ↦ ok id | none ↦ err missing ]

abbrev pub missing_containment : Error
missing_containment = error integrity "missing_containment_node"

abbrev pub missing_dependency : Error
missing_dependency = error integrity "missing_dependency_node"

-- an aggregate is an edge that collects the evidence of its duplicates
abbrev pub add_containment :
    List (Text × ContainmentEdge) → ContainmentEdge → List (Text × ContainmentEdge)
add_containment agg e = elim (lookup e.id agg) [
  | none ↦ insert e.id e agg
  | some a ↦ insert e.id (record a { evidence = a.evidence ++ e.evidence }) agg
]

abbrev pub add_edge : List (Text × DependencyEdge) → DependencyEdge → List (Text × DependencyEdge)
add_edge agg e = elim (lookup e.id agg) [
  | none ↦ insert e.id (record e { occurrences = 1 }) agg
  | some a ↦
      insert e.id
        (record a { occurrences = a.occurrences + 1; evidence = a.evidence ++ e.evidence }) agg
]

-- `m[key]++`
abbrev pub increment : Text → List (Text × ℕ) → List (Text × ℕ)
increment key m = elim (lookup key m) [ none ↦ insert key 1 m | some n ↦ insert key (n + 1) m ]

unfoldable pub containment_kept : List (Text × ContainmentEdge) → ℕ → List ContainmentEdge × ℕ
containment_kept [] limit = ([], 0)
containment_kept ((_, e) ∷ m) limit =
    let (kept, omitted) = keep_evidence e.evidence limit in
    let (rest, total) = containment_kept m limit in
    (record e { evidence = kept; omitted_evidence = omitted } ∷ rest, omitted + total)

unfoldable pub edges_kept : List (Text × DependencyEdge) → ℕ → List DependencyEdge × ℕ
edges_kept [] limit = ([], 0)
edges_kept ((_, e) ∷ m) limit =
    let (kept, omitted) = keep_evidence e.evidence limit in
    let (rest, total) = edges_kept m limit in
    (record e { evidence = kept; omitted_evidence = omitted } ∷ rest, omitted + total)

unfoldable pub count_by : (DependencyEdge → Text) → List (Text × DependencyEdge) → List (Text × ℕ)
count_by key [] = []
count_by key ((_, e) ∷ m) = increment (key e) (count_by key m)

-- the edges, what is left out, and the counts over all edges, those left out included
pub record EdgeResult : Type 0 where
  pub edges : List DependencyEdge
  pub omitted : ℕ
  pub omitted_evidence : ℕ
  pub by_graph : List (Text × ℕ)
  pub by_resolution : List (Text × ℕ)

module _ (sha256_hex : Text → Text) (nodes : List (Text × Text)) where
  containment_round :
      List (Text × ContainmentEdge) → ContainmentCandidate → Result (List (Text × ContainmentEdge))
  containment_round agg v = do
    require (valid_containment v.kind) (error invalid_input "invalid_containment_kind")
    p ← normalize_identity v.parent
    ch ← normalize_identity v.child
    pid ← find_node nodes (identity_key p) missing_containment
    cid ← find_node nodes (identity_key ch) missing_containment
    ev ← normalize_evidence v.evidence no_limit
    ok (
        add_containment agg (record {
          id = containment_id sha256_hex v.kind pid cid;
          kind = v.kind;
          parent_id = pid;
          child_id = cid;
          evidence = ev.0;
          omitted_evidence = 0;
        }))

  unfoldable pub containment_rounds :
      (ℕ → Bool)
      → ℕ
      → List (Text × ContainmentEdge)
      → List ContainmentCandidate
      → Result (List (Text × ContainmentEdge))
  unfolding containment_round
  containment_rounds ended i agg [] = ok agg
  containment_rounds ended i agg (v ∷ vs) = do
    checkpoint ended i
    next ← containment_round agg v
    containment_rounds ended (i + 1) next vs

  unfoldable pub edge_round :
      List (Text × DependencyEdge) → DependencyCandidate → Result (List (Text × DependencyEdge))
  edge_round agg v = do
    require (valid_graph v.graph && (valid_dependency v.kind && valid_resolution v.resolution))
        (error invalid_input "invalid_dependency")
    from ← normalize_identity v.source
    to ← normalize_identity v.target
    fid ← find_node nodes (identity_key from) missing_dependency
    tid ← find_node nodes (identity_key to) missing_dependency
    ev ← normalize_evidence v.evidence no_limit
    ok (
        add_edge agg (record {
          id = edge_id sha256_hex v.graph v.kind fid tid v.resolution;
          graph = v.graph;
          kind = v.kind;
          from_node_id = fid;
          to_node_id = tid;
          resolution = v.resolution;
          occurrences = 0;
          evidence = ev.0;
          omitted_evidence = 0;
        }))

  unfoldable pub edge_rounds :
      (ℕ → Bool)
      → ℕ
      → List (Text × DependencyEdge)
      → List DependencyCandidate
      → Result (List (Text × DependencyEdge))
  edge_rounds ended i agg [] = ok agg
  edge_rounds ended i agg (v ∷ vs) = do
    checkpoint ended i
    next ← edge_round agg v
    edge_rounds ended (i + 1) next vs

  -- the edges, how many of them and how much evidence is left out
  unfoldable pub normalize_containment :
      Config → (ℕ → Bool) → List ContainmentCandidate → Result (List ContainmentEdge × ℕ × ℕ)
  unfolding containment_rounds containment_kept
  normalize_containment c ended vs = do
    agg ← containment_rounds ended 0 [] vs
    let kept = containment_kept agg c.max_evidence_per_item
    let out = limited (sort_by containment_less kept.0) c.max_edges
    ok (out.0, out.1, kept.1)

  unfoldable pub normalize_edges :
      Config → (ℕ → Bool) → List DependencyCandidate → Result EdgeResult
  unfolding edge_rounds edges_kept count_by
  normalize_edges c ended vs = do
    agg ← edge_rounds ended 0 [] vs
    let kept = edges_kept agg c.max_evidence_per_item
    let out = limited (sort_by edge_less kept.0) c.max_edges
    ok (record {
      edges = out.0;
      omitted = out.1;
      omitted_evidence = kept.1;
      by_graph = count_by (λ e. e.graph) agg;
      by_resolution = count_by (λ e. e.resolution) agg;
    })
