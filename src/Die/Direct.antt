-- ===== src/Die/Direct.antt =====
-- Pages of direct neighbours (backend/die/analysis_query.go: `direct`, `cursorLast`, and
-- analysis_config.go: `NewNodeQuery`).
--
-- A cursor is JSON in base64: a `Codec` has the functions of the packages encoding/json and
-- encoding/base64, a `PageKey` what a cursor is bound to. The digest of the inventory is an argument.
-- `sort.Search` is the first index that passes, as it promises for a test that stays true. The polls
-- of the context pass, and the view has no summary of the graph.
pub mod Resume
pub mod Ascending
pub mod Samples
use software_engineering_pla.Shared.{
  ℕ, zero, suc, ◌+◌, Bool, true, false, not, ◌&&◌, ◌||◌, List, [], ◌∷◌, ◌++◌, Option, none, some,
  ltb, ◌==◌, if◌then◌else◌, length, take, drop,
}
use software_engineering_pla.Die.Text.{Text, text, text_eq, text_lt, is_empty, lookup}
use software_engineering_pla.Die.Model.{
  Error, error, invalid_input, Result, ok, err, ◌>>=◌, ◌>>◌, require, or_default, valid_graph,
  DependencyEdge,
}
use software_engineering_pla.Die.Limits.{
  AnalysisConfig, TraversalDirection, dependencies, dependents, invalid_query, analysis_node_id,
}
use software_engineering_pla.Die.Graph.{Inventory, GraphIndex, index, is_local, out_edges, in_edges}

pub record NodeQuery : Type 0 where
  pub node_id : Text
  pub graph : Text
  pub page_size : ℕ
  pub cursor : Text

unfoldable pub new_node_query : NodeQuery → Result NodeQuery
new_node_query p = do
  require
      (not (
        not (analysis_node_id p.node_id)
        || (not (valid_graph p.graph) || (ltb 1000 p.page_size || ltb 2048 (length p.cursor)))))
      invalid_query
  ok p

pub record Neighbor : Type 0 where
  pub node_id : Text
  pub resolution : Text
  pub edge_ids : List Text

abbrev pub cursor_mismatch : Error
cursor_mismatch = error invalid_input "cursor_mismatch"

abbrev is_node : GraphIndex → Text → Bool
is_node x id = elim (lookup id x.nodes) [ some n ↦ true | none ↦ false ]

abbrev resolution_of : GraphIndex → Text → Text
resolution_of x id = elim (lookup id x.nodes) [ some n ↦ n.identity.resolution | none ↦ [] ]

abbrev pub other_end : TraversalDirection → DependencyEdge → Text
other_end dependencies e = e.to_node_id
other_end dependents e = e.from_node_id

-- one round of the loop, with the neighbours last to first
abbrev pub collect :
    GraphIndex → TraversalDirection → List Neighbor → DependencyEdge → List Neighbor
collect x direction [] e =
    record {
      node_id = other_end direction e;
      resolution = resolution_of x (other_end direction e);
      edge_ids = e.id ∷ [];
    }
    ∷ []
collect x direction (n ∷ seen) e =
    if text_eq n.node_id (other_end direction e)
    then record n { edge_ids = n.edge_ids ++ e.id ∷ [] } ∷ seen
    else record {
      node_id = other_end direction e;
      resolution = resolution_of x (other_end direction e);
      edge_ids = e.id ∷ [];
    }
      ∷ n
      ∷ seen

abbrev pub turn : List Neighbor → List Neighbor → List Neighbor
turn [] out = out
turn (n ∷ ns) out = turn ns (n ∷ out)

unfoldable pub neighbors_from :
    GraphIndex → TraversalDirection → List Neighbor → List DependencyEdge → List Neighbor
neighbors_from x direction seen [] = turn seen []
neighbors_from x direction seen (e ∷ es) =
    neighbors_from x direction (collect x direction seen e) es

-- the index of the first neighbour whose identifier is not below, or the length
abbrev pub search : Text → List Neighbor → ℕ
search last [] = 0
search last (n ∷ ns) = let at = search last ns in if text_lt n.node_id last then suc at else 0

abbrev pub node_at : ℕ → List Neighbor → Option Text
node_at i [] = none
node_at zero (n ∷ ns) = some n.node_id
node_at (suc i) (n ∷ ns) = node_at i ns

pub record NodePage : Type 0 where
  pub neighbors : List Neighbor
  pub has_more : Bool
  -- empty if there is no more
  pub next_cursor : Text

abbrev pub last_of : List Neighbor → Text
last_of [] = []
last_of (n ∷ []) = n.node_id
last_of (n ∷ m ∷ ns) = last_of (m ∷ ns)

-- what a cursor holds
pub data Field : Type 0 where
  text_field : Text → Field
  number_field : ℕ → Field

-- `Marshal` of a list, `Unmarshal` into raw messages and into a string, and `RawURLEncoding`, strict
pub record Codec : Type 0 where
  pub marshal : List Field → Text
  pub unmarshal_list : Text → Option (List Text)
  pub unmarshal_text : Text → Option Text
  pub encode : Text → Text
  pub decode : Text → Option Text

pub record PageKey : Type 0 where
  pub digest : Text
  pub graph : Text
  pub direction : TraversalDirection
  pub root : Text
  pub size : ℕ

abbrev pub direction_text : TraversalDirection → Text
direction_text dependencies = text "dependencies"
direction_text dependents = text "dependents"

abbrev pub cursor_scheme : Text
cursor_scheme = text "dependency-node-page/v1"

abbrev pub cursor_fields : PageKey → Text → List Field
cursor_fields k last =
    text_field cursor_scheme
    ∷ text_field k.digest
    ∷ text_field k.graph
    ∷ text_field (direction_text k.direction)
    ∷ text_field k.root
    ∷ number_field k.size
    ∷ text_field last
    ∷ []

-- the last of seven fields
abbrev pub seventh : List Text → Option Text
seventh (a ∷ b ∷ c ∷ d ∷ e ∷ f ∷ last ∷ []) = some last
seventh _ = none

module _ (c : Codec) (k : PageKey) where
  unfoldable pub page_cursor : Text → Text
  page_cursor last = c.encode (c.marshal (cursor_fields k last))

  -- the decoding of `cursorLast`
  unfoldable pub last_field : Text → Option Text
  last_field cursor = elim (c.decode cursor) [
    | none ↦ none
    | some b ↦ elim (c.unmarshal_list b) [
      | none ↦ none
      | some fields ↦ elim (seventh fields) [ none ↦ none | some raw ↦ c.unmarshal_text raw ]
    ]
  ]

  unfoldable pub cursor_last : Text → Result Text
  unfolding last_field
  cursor_last cursor = elim (last_field cursor) [
    | none ↦ err cursor_mismatch
    | some last ↦ do
      require
          (not (ltb 2048 (length cursor))
            && (analysis_node_id last && text_eq (page_cursor last) cursor))
          cursor_mismatch
      ok last
  ]

  -- where the page begins
  unfoldable pub start_of : Text → List Neighbor → Result ℕ
  unfolding cursor_last
  start_of cursor ns = if is_empty cursor then ok 0 else do
    last ← cursor_last cursor
    elim (node_at (search last ns) ns) [
      | none ↦ err cursor_mismatch
      | some id ↦ do require (text_eq id last) cursor_mismatch; ok (search last ns + 1)
    ]

  -- `neighbors[start:end]`, with `end` cut to the length
  unfoldable pub page_from : ℕ → List Neighbor → ℕ → NodePage
  page_from size ns start =
      let page = take size (drop start ns) in
      let more = ltb (start + size) (length ns) in
      record {
        neighbors = page;
        has_more = more;
        next_cursor = if more then page_cursor (last_of page) else [];
      }

unfoldable pub direct :
    Codec
    → (Text → Text)
    → Text
    → AnalysisConfig
    → Inventory
    → NodeQuery
    → TraversalDirection
    → Result NodePage
unfolding neighbors_from page_from start_of
direct codec sha256_hex digest c v q direction = do
  let size = or_default q.page_size c.max_page_size
  require (not (ltb c.max_page_size size)) invalid_query
  x ← index sha256_hex c v
  let out = out_edges x q.graph q.node_id
  let in' = in_edges x q.graph q.node_id
  require
      (is_node x q.node_id
        && not (not (is_local x q.graph q.node_id) && (length out == 0 && length in' == 0)))
      invalid_query
  let ns = neighbors_from x direction [] (elim direction [ dependencies ↦ out | dependents ↦ in' ])
  let k : PageKey = record {
    digest = digest;
    graph = q.graph;
    direction = direction;
    root = q.node_id;
    size = size;
  }
  start ← start_of codec k q.cursor ns
  ok (page_from codec k size ns start)
