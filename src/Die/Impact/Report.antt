-- ===== src/Die/Impact/Report.antt =====
-- The answer of an impact query (backend/die/analysis_query.go, `Impact`) as a whole.
use software_engineering_pla.Shared.{
  ℕ, ◌+◌, ◌≤◌, ◌≡◌, refl, sym, ap, subst, ◌∙◌, ◌⊎◌, inl, inr, Bool, true, false, ◌||◌, List, [],
  ◌∷◌, map, arith, length, All, Bool-cases,
}
use software_engineering_pla.Die.Text.{Text, text_eq, text_lt, insert_by, sort_by}
use software_engineering_pla.Die.Text.Order.{All-sort_by, length-sort_by}
use software_engineering_pla.Die.Model.{ok, Result-cases}
use software_engineering_pla.Die.Limits.{AnalysisConfig, ImpactQuery}
use software_engineering_pla.Die.Graph.{Inventory, GraphIndex, index, contains_text}
use software_engineering_pla.Die.Impact.{
  Arc, Search, result_of, Progress, running, stopped, arcs, traverse, with_defaults, reached_less,
  ImpactResult, report, impact,
}
use software_engineering_pla.Die.Impact.Bounds.{search_of, IsWithin, traverse-IsWithin}
use software_engineering_pla.Die.Impact.Counts.{IsCounted, traverse-IsCounted}
use software_engineering_pla.Die.Impact.Sets.{◌∈◌}
use software_engineering_pla.Die.Impact.Walks.{Walk, Shortest}
use software_engineering_pla.Die.Impact.Reachability.{traverse_sound, traverse_complete}

-- the traversal that answers a query
abbrev run_of : AnalysisConfig → ImpactQuery → GraphIndex → Progress
run_of c q x =
    let p = with_defaults c q in
    traverse p.max_nodes p.max_edges p.max_depth (arcs x p.graph p.direction) p.node_ids

-- an answer: the query is inside the configured limits, the inventory has an index, the seeds are
-- local, and the answer is the report of the traversal
abbrev Answered :
    (Text → Text) → AnalysisConfig → Inventory → ImpactQuery → ImpactResult → GraphIndex → Type 0
Answered sha256_hex c v q r x =
    let p = with_defaults c q in
    (index sha256_hex c v ≡ ok x)
    × (p.max_nodes ≤ c.max_traversal_nodes)
    × (p.max_edges ≤ c.max_traversal_edges)
    × (p.max_depth ≤ c.max_traversal_depth)
    × (length p.node_ids ≤ p.max_nodes)
    × (r ≡ report p.node_ids (run_of c q x))

impact-Answered :
    (sha256_hex : Text → Text) (c : AnalysisConfig) (v : Inventory) (q : ImpactQuery)
    (r : ImpactResult)
    → impact sha256_hex c v q ≡ ok r
    → (x : GraphIndex) × Answered sha256_hex c v q r x
unfolding impact
impact-Answered sha256_hex c v q r e = elim (Result-cases (index sha256_hex c v)) [
  | inr f ↦ absurd (ground arith)
  | inl (x, i) ↦ (x, ground arith)
]

report_reached {κ} :
    (P : Text × ℕ → Type κ) (seeds : List Text) (p : Progress)
    → All P (search_of p).reached
    → All P (report seeds p).reached
report_reached P seeds (running s) h = All-sort_by reached_less P s.reached h
report_reached P seeds (stopped reason s) h = All-sort_by reached_less P s.reached h

-- the bounds of an answer
abbrev Bounded : ℕ → ℕ → ℕ → ImpactResult → Type 0
Bounded max_nodes max_edges max_depth r =
    (r.visited_nodes ≤ max_nodes)
    × (r.scanned_edges ≤ max_edges)
    × (r.max_depth_reached ≤ max_depth)
    × All (λ n. n.1 ≤ max_depth) r.reached

report-Bounded :
    (max_nodes max_edges max_depth : ℕ) (seeds : List Text) (p : Progress)
    → IsWithin max_nodes max_edges max_depth (search_of p)
    → Bounded max_nodes max_edges max_depth (report seeds p)
report-Bounded max_nodes max_edges max_depth seeds (running s) w =
    (w.nodes, w.edges, w.depths, report_reached (λ n. n.1 ≤ max_depth) seeds (running s) w.reached)
report-Bounded max_nodes max_edges max_depth seeds (stopped reason s) w = (
  w.nodes,
  w.edges,
  w.depths,
  report_reached (λ n. n.1 ≤ max_depth) seeds (stopped reason s) w.reached,
)

-- the records of an answer: an edge for each that is listed, a node for each seed and each reported one
abbrev Listed : ℕ → ℕ → ℕ → ImpactResult → Type 0
Listed seeds max_nodes max_edges r =
    (length r.reached + seeds ≤ max_nodes) × (length r.edge_ids ≤ max_edges)

result_of-Listed :
    (max_nodes max_edges max_depth : ℕ) (seeds : List Text) (s : Search) (truncated : Bool)
    → IsWithin max_nodes max_edges max_depth s
    → IsCounted (length seeds) s
    → Listed (length seeds) max_nodes max_edges (result_of seeds s truncated)
result_of-Listed max_nodes max_edges max_depth seeds s truncated w h = (
  omega (arith, h.reached, h.apart, w.counted, w.nodes, length-sort_by reached_less s.reached),
  omega (arith, h.recorded, w.edges, length-sort_by text_lt s.edges),
)

report-Listed :
    (max_nodes max_edges max_depth : ℕ) (seeds : List Text) (p : Progress)
    → IsWithin max_nodes max_edges max_depth (search_of p)
    → IsCounted (length seeds) (search_of p)
    → Listed (length seeds) max_nodes max_edges (report seeds p)
report-Listed max_nodes max_edges max_depth seeds (running s) w h =
    result_of-Listed max_nodes max_edges max_depth seeds s false w h
report-Listed max_nodes max_edges max_depth seeds (stopped reason s) w h =
    result_of-Listed max_nodes max_edges max_depth seeds s true w h

All-raise : (n m : ℕ) (rs : List (Text × ℕ)) → n ≤ m → All (λ r. r.1 ≤ n) rs → All (λ r. r.1 ≤ m) rs
All-raise n m [] h a = tt
All-raise n m (r ∷ rs) h a = (omega (arith, a.0), All-raise n m rs h a.1)

ok_injective {ℓ} : {A : Type ℓ} (a b : A) → ok a ≡ ok b → a ≡ b
ok_injective a b h = cc

reached_insert :
    (id : Text) (n : Text × ℕ) (ns : List (Text × ℕ))
    → contains_text id (map (λ r. r.0) (insert_by reached_less n ns))
      ≡ contains_text id (map (λ r. r.0) (n ∷ ns))
reached_insert id n [] = refl
reached_insert id n (m ∷ ns) = elim (Bool-cases (reached_less m n)) [
  | inl e ↦ rw e ground (arith, reached_insert id n ns)
  | inr e ↦ rw e refl
]

reached_sort :
    (id : Text) (ns : List (Text × ℕ))
    → contains_text id (map (λ r. r.0) (sort_by reached_less ns))
      ≡ contains_text id (map (λ r. r.0) ns)
reached_sort id [] = refl
reached_sort id (n ∷ ns) =
    reached_insert id n (sort_by reached_less ns)
    ∙ ap (λ b. text_eq n.0 id || b) (reached_sort id ns)

report_complete :
    (seeds : List Text) (adjacent : Text → List Arc) (max_nodes max_edges max_depth : ℕ)
    (p : Progress)
    → p ≡ traverse max_nodes max_edges max_depth adjacent seeds
    → (report seeds p).truncated ≡ false
    → (id : Text) (n : ℕ) → Walk adjacent seeds id n
    → id ∈ seeds ⊎ id ∈ map (λ r. r.0) (report seeds p).reached
report_complete seeds adjacent max_nodes max_edges max_depth (stopped reason s) e t id n w =
    absurd (cc)
report_complete seeds adjacent max_nodes max_edges max_depth (running s) e t id n w =
    elim (traverse_complete max_nodes max_edges max_depth adjacent seeds s (sym e) id n w) [
      | inl h ↦ inl h
      | inr h ↦ inr (reached_sort id s.reached ∙ h)
    ]

-- Every answer, truncated or not, counts at most the configured nodes as visited and edges as scanned;
-- the seeds and the nodes that it reports are together at most the configured nodes, the edges that it
-- lists at most the configured edges; and it reports depths up to the configured depth only.
pub impact_bounds :
    (sha256_hex : Text → Text) (c : AnalysisConfig) (v : Inventory) (q : ImpactQuery)
    (r : ImpactResult)
    → impact sha256_hex c v q ≡ ok r
    → (r.visited_nodes ≤ c.max_traversal_nodes)
      × (r.scanned_edges ≤ c.max_traversal_edges)
      × (length r.reached + length q.node_ids ≤ c.max_traversal_nodes)
      × (length r.edge_ids ≤ c.max_traversal_edges)
      × (r.max_depth_reached ≤ c.max_traversal_depth)
      × All (λ n. n.1 ≤ c.max_traversal_depth) r.reached
impact_bounds sha256_hex c v q r e =
    let (x, (i, nodes, edges, depth, seeds, same)) = impact-Answered sha256_hex c v q r e in
    let p = with_defaults c q in
    let within =
      traverse-IsWithin p.max_nodes p.max_edges p.max_depth (arcs x q.graph q.direction) q.node_ids
        seeds in
    let (reached, listed) = subst (Listed (length q.node_ids) p.max_nodes p.max_edges) (sym same) (
      report-Listed p.max_nodes p.max_edges p.max_depth q.node_ids (run_of c q x) within (
        traverse-IsCounted p.max_nodes p.max_edges p.max_depth (arcs x q.graph q.direction)
          q.node_ids)) in
    let (n, m, d, all) =
      subst (Bounded p.max_nodes p.max_edges p.max_depth) (sym same)
        (report-Bounded p.max_nodes p.max_edges p.max_depth q.node_ids (run_of c q x) within) in
    (
      omega arith,
      omega arith,
      omega arith,
      omega arith,
      omega arith,
      All-raise p.max_depth c.max_traversal_depth r.reached depth all,
    )

-- Where the index of the inventory is built and the query is answered, every reported node is reached
-- by a walk of eligible edges from a seed whose length is the reported depth, and no walk to it is
-- shorter.
pub impact_sound :
    (sha256_hex : Text → Text) (c : AnalysisConfig) (v : Inventory) (q : ImpactQuery)
    (r : ImpactResult) (x : GraphIndex)
    → index sha256_hex c v ≡ ok x
    → impact sha256_hex c v q ≡ ok r
    → All (Shortest (arcs x q.graph q.direction) q.node_ids) r.reached
impact_sound sha256_hex c v q r x i e =
    let (y, (j, _, _, _, _, same)) = impact-Answered sha256_hex c v q r e in
    let p = with_defaults c q in
    let z = ok_injective y x (sym j ∙ i) in
    subst (λ y'. All (Shortest (arcs y' q.graph q.direction) q.node_ids) r.reached) z
      (subst (λ a. All (Shortest (arcs y q.graph q.direction) q.node_ids) a.reached) (sym same)
        (report_reached (Shortest (arcs y q.graph q.direction) q.node_ids) q.node_ids (run_of c q y)
          (traverse_sound p.max_nodes p.max_edges p.max_depth (arcs y q.graph q.direction)
            q.node_ids)))

-- Where the index of the inventory is built and the answer is not truncated, it reports every node
-- that a walk of eligible edges leads to from a seed, except the seeds.
pub impact_complete :
    (sha256_hex : Text → Text) (c : AnalysisConfig) (v : Inventory) (q : ImpactQuery)
    (r : ImpactResult) (x : GraphIndex)
    → index sha256_hex c v ≡ ok x
    → impact sha256_hex c v q ≡ ok r
    → r.truncated ≡ false
    → (id : Text) (n : ℕ) → Walk (arcs x q.graph q.direction) q.node_ids id n
    → id ∈ q.node_ids ⊎ id ∈ map (λ n. n.0) r.reached
impact_complete sha256_hex c v q r x i e t id n w =
    let (y, (j, _, _, _, _, same)) = impact-Answered sha256_hex c v q r e in
    let p = with_defaults c q in
    let z = ok_injective y x (sym j ∙ i) in
    subst (λ a. id ∈ q.node_ids ⊎ id ∈ map (λ n. n.0) a.reached) (sym same)
      (report_complete q.node_ids (arcs y q.graph q.direction) p.max_nodes p.max_edges p.max_depth _
        refl (subst (λ a. a.truncated ≡ false) same t) id n
        (subst (λ y'. Walk (arcs y' q.graph q.direction) q.node_ids id n) (sym z) w))
