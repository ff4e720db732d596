-- ===== src/Die/Normalize/Occurrences.antt =====
-- Occurrences of dependency edges (backend/die/implementation.go, `normalizeEdges`).
use software_engineering_pla.Shared.{
  ℕ, ◌+◌, ◌≡◌, refl, sym, ap, ◌∙◌, inl, inr, Bool, List, [], ◌∷◌, ◌++◌, none, some, arith, length,
}
use software_engineering_pla.Die.Text.{Text, insert_by, sort_by, lookup, insert}
use software_engineering_pla.Die.Model.{
  ok, bind_ok, then_ok, ok_value, Config, DependencyCandidate, DependencyEdge,
}
use software_engineering_pla.Die.Evidence.{limited, normalize_evidence}
use software_engineering_pla.Die.Identity.{normalize_identity, identity_key, edge_id}
use software_engineering_pla.Die.Normalize.{checkpoint, no_limit, edge_less}
use software_engineering_pla.Die.Normalize.Counts.{Option-cases}
use software_engineering_pla.Die.Normalize.Edges.{
  add_edge, find_node, missing_dependency, edges_kept, edge_round, edge_rounds, normalize_edges,
  EdgeResult,
}

abbrev pub total : List DependencyEdge → ℕ
total [] = 0
total (e ∷ es) = e.occurrences + total es

-- the total of a map of edges
abbrev total_of : List (Text × DependencyEdge) → ℕ
total_of [] = 0
total_of ((_, e) ∷ m) = e.occurrences + total_of m

total-insert_by :
    (less : DependencyEdge → DependencyEdge → Bool) (e : DependencyEdge) (es : List DependencyEdge)
    → total (insert_by less e es) ≡ e.occurrences + total es
total-insert_by less e [] = refl
total-insert_by less e (x ∷ es) = ground (arith, total-insert_by less e es)

total-sort_by :
    (less : DependencyEdge → DependencyEdge → Bool) (es : List DependencyEdge)
    → total (sort_by less es) ≡ total es
total-sort_by less [] = refl
total-sort_by less (e ∷ es) =
    omega (arith, total-insert_by less e (sort_by less es), total-sort_by less es)

insert_new :
    (k : Text) (e : DependencyEdge) (m : List (Text × DependencyEdge))
    → lookup k m ≡ none
    → total_of (insert k e m) ≡ total_of m + e.occurrences
insert_new k e [] h = omega arith
insert_new k e ((j, w) ∷ m) h = ground (arith, insert_new k e m)

insert_old :
    (k : Text) (e a : DependencyEdge) (m : List (Text × DependencyEdge))
    → lookup k m ≡ some a
    → total_of (insert k e m) + a.occurrences ≡ total_of m + e.occurrences
insert_old k e a [] h = absurd (cc)
insert_old k e a ((j, w) ∷ m) h = ground (arith, insert_old k e a m)

total-add_edge :
    (agg : List (Text × DependencyEdge)) (e : DependencyEdge)
    → total_of (add_edge agg e) ≡ total_of agg + 1
total-add_edge agg e = elim (Option-cases (lookup e.id agg)) [
  | inl f ↦ let added = insert_new e.id (record e { occurrences = 1 }) agg f in ground arith
  | inr (a, f) ↦
      let b : DependencyEdge = record a {
        occurrences = a.occurrences + 1;
        evidence = a.evidence ++ e.evidence;
      } in
      let replaced = insert_old e.id b a agg f in ground arith
]

total-edges_kept :
    (agg : List (Text × DependencyEdge)) (limit : ℕ) → total (edges_kept agg limit).0 ≡ total_of agg
unfolding edges_kept
total-edges_kept [] limit = refl
total-edges_kept ((k, e) ∷ m) limit = omega (arith, total-edges_kept m limit)

module _ (sha256_hex : Text → Text) (nodes : List (Text × Text)) where
  total-edge_round :
      (agg : List (Text × DependencyEdge)) (v : DependencyCandidate)
      (next : List (Text × DependencyEdge))
      → edge_round sha256_hex nodes agg v ≡ ok next
      → total_of next ≡ total_of agg + 1
  unfolding edge_round
  total-edge_round agg v next e =
      let (from, _, e1) = bind_ok (normalize_identity v.source) _ next (then_ok _ _ next e) in
      let (to, _, e2) = bind_ok (normalize_identity v.target) _ next e1 in
      let (fid, _, e3) =
        bind_ok (find_node nodes (identity_key from) missing_dependency) _ next e2 in
      let (tid, _, e4) = bind_ok (find_node nodes (identity_key to) missing_dependency) _ next e3 in
      let (ev, _, e5) = bind_ok (normalize_evidence v.evidence no_limit) _ next e4 in
      let edge : DependencyEdge = record {
        id = edge_id sha256_hex v.graph v.kind fid tid v.resolution;
        graph = v.graph;
        kind = v.kind;
        from_node_id = fid;
        to_node_id = tid;
        resolution = v.resolution;
        occurrences = 0;
        evidence = ev.0;
        omitted_evidence = 0;
      } in
      ap total_of (sym (ok_value (add_edge agg edge) next e5)) ∙ total-add_edge agg edge

  total-edge_rounds :
      (ended : ℕ → Bool) (i : ℕ) (agg : List (Text × DependencyEdge))
      (vs : List DependencyCandidate) (next : List (Text × DependencyEdge))
      → edge_rounds sha256_hex nodes ended i agg vs ≡ ok next
      → total_of next ≡ total_of agg + length vs
  unfolding edge_rounds
  total-edge_rounds ended i agg [] next e = ap total_of (sym (ok_value agg next e)) ∙ omega arith
  total-edge_rounds ended i agg (v ∷ vs) next e =
      let (mid, f, g) =
        bind_ok (edge_round sha256_hex nodes agg v)
          (λ m. edge_rounds sha256_hex nodes ended (i + 1) m vs) next
          (then_ok (checkpoint ended i) _ next e) in
      omega (arith, total-edge_round agg v mid f, total-edge_rounds ended (i + 1) mid vs next g)

kept_whole :
    (es : List DependencyEdge) (limit : ℕ) → (limited es limit).1 ≡ 0 → (limited es limit).0 ≡ es
kept_whole es limit h = ground arith

-- Where the dependency candidates are normalized and no edge is left out, the occurrences of the edges
-- add up to the number of candidates.
pub normalize_edges_counts :
    (sha256_hex : Text → Text) (nodes : List (Text × Text)) (c : Config) (ended : ℕ → Bool)
    (vs : List DependencyCandidate) (out : EdgeResult)
    → normalize_edges sha256_hex nodes c ended vs ≡ ok out
    → out.omitted ≡ 0
    → total out.edges ≡ length vs
unfolding normalize_edges
normalize_edges_counts sha256_hex nodes c ended vs out e h =
    let (agg, f, g) = bind_ok (edge_rounds sha256_hex nodes ended 0 [] vs) _ out e in
    let kept = edges_kept agg c.max_evidence_per_item in
    let same = ok_value _ out g in
    let whole = kept_whole (sort_by edge_less kept.0) c.max_edges (ap (λ o. o.omitted) same ∙ h) in
    sym (ap (λ o. total o.edges) same)
    ∙ ap total whole
    ∙ total-sort_by edge_less kept.0
    ∙ total-edges_kept agg c.max_evidence_per_item
    ∙ omega (arith, total-edge_rounds sha256_hex nodes ended 0 [] vs agg f)
