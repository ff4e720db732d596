-- ===== src/Die/Normalize/Counts.antt =====
-- The sizes and counts of a normalized inventory (backend/die/implementation.go).
use software_engineering_pla.Shared.{
  ℕ, suc, ◌+◌, ◌≤◌, ◌≡◌, refl, ap, subst, ◌⊎◌, inl, inr, Bool, List, [], ◌∷◌, Option, none, some,
  arith, length, length-take, Bool-cases,
}
use software_engineering_pla.Die.Text.{Text, text_eq, dedupe, sort_by, lookup, insert}
use software_engineering_pla.Die.Text.Order.{length-sort_by}
use software_engineering_pla.Die.Model.{
  ok, bind_ok, then_ok, ok_value, Config, GraphInput, NodeCandidate, DependencyCandidate,
}
use software_engineering_pla.Die.Evidence.{
  limited, normalize_evidence, merge_evidence, validate_source,
}
use software_engineering_pla.Die.Identity.{normalize_identity}
use software_engineering_pla.Die.Normalize.{
  Polls, checkpoint, no_limit, NodeMaps, node_round_kept, node_rounds, node_round, add_node,
  normalize_nodes, normalize_sources, node_less, containment_less, edge_less,
}
use software_engineering_pla.Die.Normalize.Edges.{
  containment_rounds, containment_kept, edges_kept, edge_rounds, normalize_edges,
  normalize_containment, EdgeResult,
}
use software_engineering_pla.Die.Normalize.Whole.{
  check_diagnostics, diagnostic_less, diagnostic_key, normalize, normalize_diagnostics,
  DependencyInventory,
}

-- at most the limit is kept, and with what is left out it is all
limited_lem {ℓ} :
    {A : Type ℓ} (xs : List A) (limit : ℕ)
    → let r = limited xs limit in (length r.0 ≤ limit) × (length r.0 + r.1 ≡ length xs)
limited_lem xs limit = ground (arith, length-take limit xs)

length-insert {ℓ} :
    {V : Type ℓ} (k : Text) (v : V) (m : List (Text × V))
    → ((w : V) × (lookup k m ≡ some w) × (length (insert k v m) ≡ length m))
      ⊎ ((lookup k m ≡ none) × (length (insert k v m) ≡ suc (length m)))
length-insert k v [] = inr (refl, refl)
length-insert k v ((j, w) ∷ m) = elim (Bool-cases (text_eq j k)) [
  | inl e ↦ inl (w, rw e refl, rw e refl)
  | inr e ↦ elim (length-insert k v m) [
    | inl (u, f, g) ↦ inl (u, rw e f, rw e (ap suc g))
    | inr (f, g) ↦ inr (rw e f, rw e (ap suc g))
  ]
]

length-node_round_kept : (m : _) (limit : ℕ) → length (node_round_kept m limit).0 ≡ length m
unfolding node_round_kept
length-node_round_kept [] limit = refl
length-node_round_kept ((k, n) ∷ m) limit = ap suc (length-node_round_kept m limit)

pub Option-cases {ℓ} : {A : Type ℓ} (o : Option A) → (o ≡ none) ⊎ ((a : A) × (o ≡ some a))
Option-cases none = inl refl
Option-cases (some a) = inr (a, refl)

module _ (sha256_hex : Text → Text) (c : Config) where
  add_node_within :
      (maps : NodeMaps) (n : _) (key : Text) (next : NodeMaps)
      → length maps.by_id ≤ c.max_nodes
      → add_node sha256_hex c maps n key ≡ ok next
      → length next.by_id ≤ c.max_nodes
  unfolding add_node
  add_node_within maps n key next h e = elim (Option-cases (lookup n.id maps.by_id)) [
    | inl f ↦ ground arith
    | inr (prior, f) ↦
        let g =
          length-insert n.id (record prior { evidence = merge_evidence prior.evidence n.evidence })
            maps.by_id in
        ground arith
  ]

  node_round_within :
      (maps : NodeMaps) (v : NodeCandidate) (next : NodeMaps)
      → length maps.by_id ≤ c.max_nodes
      → node_round sha256_hex c maps v ≡ ok next
      → length next.by_id ≤ c.max_nodes
  unfolding node_round
  node_round_within maps v next h e =
      let (identity, _, f) = bind_ok (normalize_identity v.identity) _ next e in
      let (kept, _, g) =
        bind_ok (normalize_evidence v.evidence no_limit) _ next
          (then_ok (validate_source v.source_identity) _ next f) in
      add_node_within maps _ _ next h g

  node_rounds_within :
      (ended : ℕ → Bool) (i : ℕ) (maps : NodeMaps) (vs : List NodeCandidate) (next : NodeMaps)
      → length maps.by_id ≤ c.max_nodes
      → node_rounds sha256_hex c ended i maps vs ≡ ok next
      → length next.by_id ≤ c.max_nodes
  unfolding node_rounds node_round
  node_rounds_within ended i maps [] next h e = ground arith
  node_rounds_within ended i maps (v ∷ vs) next h e =
      let (mid, f, g) =
        bind_ok (node_round sha256_hex c maps v) (λ m. node_rounds sha256_hex c ended (i + 1) m vs)
          next (then_ok (checkpoint ended i) _ next e) in
      node_rounds_within ended (i + 1) mid vs next (node_round_within maps v mid h f) g

  normalize_nodes_within :
      (ended : ℕ → Bool) (vs : List NodeCandidate) (out : _)
      → normalize_nodes sha256_hex c ended vs ≡ ok out
      → length out.0 ≤ c.max_nodes
  unfolding normalize_nodes
  normalize_nodes_within ended vs out e =
      let start : NodeMaps = record { by_id = []; identities = [] } in
      let (maps, f, g) = bind_ok (node_rounds sha256_hex c ended 0 start vs) _ out e in
      let h = node_rounds_within ended 0 start vs maps (omega arith) f in
      let kept = node_round_kept maps.by_id c.max_evidence_per_item in
      let same = ok_value _ out g in
      subst (λ o. length o.0 ≤ c.max_nodes) same
        (omega (
          arith,
          h,
          length-sort_by node_less kept.0,
          length-node_round_kept maps.by_id c.max_evidence_per_item,
        ))

  normalize_containment_within :
      (nodes : List (Text × Text)) (ended : ℕ → Bool) (vs : _) (out : _)
      → normalize_containment sha256_hex nodes c ended vs ≡ ok out
      → length out.0 ≤ c.max_edges
  unfolding normalize_containment
  normalize_containment_within nodes ended vs out e =
      let (agg, f, g) = bind_ok (containment_rounds sha256_hex nodes ended 0 [] vs) _ out e in
      let kept = containment_kept agg c.max_evidence_per_item in
      subst (λ o. length o.0 ≤ c.max_edges) (ok_value _ out g)
        (limited_lem (sort_by containment_less kept.0) c.max_edges).0

  normalize_edges_within :
      (nodes : List (Text × Text)) (ended : ℕ → Bool) (vs : List DependencyCandidate)
      (out : EdgeResult)
      → normalize_edges sha256_hex nodes c ended vs ≡ ok out
      → length out.edges ≤ c.max_edges
  unfolding normalize_edges
  normalize_edges_within nodes ended vs out e =
      let (agg, f, g) = bind_ok (edge_rounds sha256_hex nodes ended 0 [] vs) _ out e in
      let kept = edges_kept agg c.max_evidence_per_item in
      subst (λ o. length o.edges ≤ c.max_edges) (ok_value _ out g)
        (limited_lem (sort_by edge_less kept.0) c.max_edges).0

  normalize_diagnostics_within :
      (vs : _) (limit : ℕ) (out : _)
      → normalize_diagnostics vs limit ≡ ok out
      → length out.0 ≤ limit
  unfolding normalize_diagnostics
  normalize_diagnostics_within vs limit out e =
      let (ws, f, g) = bind_ok (check_diagnostics vs) _ out e in
      subst (λ o. length o.0 ≤ limit) (ok_value _ out g)
        (limited_lem (dedupe diagnostic_key (sort_by diagnostic_less ws)) limit).0

  -- nothing is lost beyond what is counted as omitted
  normalize_diagnostics_all :
      (vs : _) (limit : ℕ) (out : _)
      → normalize_diagnostics vs limit ≡ ok out
      → (ws : _) × (check_diagnostics vs ≡ ok ws)
        × (length out.0 + out.1 ≡ length (dedupe diagnostic_key (sort_by diagnostic_less ws)))
  unfolding normalize_diagnostics
  normalize_diagnostics_all vs limit out e =
      let (ws, f, g) = bind_ok (check_diagnostics vs) _ out e in
      let kept = dedupe diagnostic_key (sort_by diagnostic_less ws) in
      (
        ws,
        f,
        subst (λ o. length o.0 + o.1 ≡ length kept) (ok_value _ out g) (limited_lem kept limit).1,
      )

-- A normalized inventory has at most the configured numbers of nodes, containment edges, dependency
-- edges and diagnostics, and with the omitted ones its diagnostics are as many as the checked
-- diagnostics of the input without repetitions.
pub normalize_bounds :
    (sha256_hex : Text → Text) (c : Config) (polls : Polls) (input : GraphInput)
    (v : DependencyInventory)
    → normalize sha256_hex c polls input ≡ ok v
    → (length v.nodes ≤ c.max_nodes)
      × (length v.containment ≤ c.max_edges)
      × (length v.dependencies ≤ c.max_edges)
      × (length v.diagnostics ≤ c.max_diagnostics)
      × ((ws : _) × (check_diagnostics input.diagnostics ≡ ok ws)
          × (length v.diagnostics + v.statistics.omitted_diagnostics
              ≡ length (dedupe diagnostic_key (sort_by diagnostic_less ws))))
unfolding normalize
normalize_bounds sha256_hex c polls input v e =
    let (sources, _, e1) =
      bind_ok (normalize_sources input.source_artifacts) _ v (then_ok _ _ v e) in
    let (nodes, n, e2) = bind_ok (normalize_nodes sha256_hex c polls.at_node input.nodes) _ v e1 in
    let (containment, k, e3) =
      bind_ok (normalize_containment sha256_hex nodes.1 c polls.at_containment input.containment) _
        v e2 in
    let (edges, d, e4) =
      bind_ok (normalize_edges sha256_hex nodes.1 c polls.at_edge input.dependencies) _ v e3 in
    let (diagnostics, g, e5) =
      bind_ok (normalize_diagnostics input.diagnostics c.max_diagnostics) _ v e4 in
    subst
      (λ w.
        (length w.nodes ≤ c.max_nodes)
        × (length w.containment ≤ c.max_edges)
        × (length w.dependencies ≤ c.max_edges)
        × (length w.diagnostics ≤ c.max_diagnostics)
        × ((ws : _) × (check_diagnostics input.diagnostics ≡ ok ws)
            × (length w.diagnostics + w.statistics.omitted_diagnostics
                ≡ length (dedupe diagnostic_key (sort_by diagnostic_less ws)))))
      (ok_value _ v e5)
      (
        normalize_nodes_within sha256_hex c polls.at_node input.nodes nodes n,
        normalize_containment_within sha256_hex c nodes.1 polls.at_containment input.containment
            containment k,
        normalize_edges_within sha256_hex c nodes.1 polls.at_edge input.dependencies edges d,
        normalize_diagnostics_within sha256_hex c input.diagnostics c.max_diagnostics diagnostics g,
        normalize_diagnostics_all sha256_hex c input.diagnostics c.max_diagnostics diagnostics g,
      )
