-- ===== src/Die/Impact/Walks.antt =====
-- Walks along eligible edges, the independent description of what the traversal
-- (backend/die/analysis_query.go, `Impact`) reports.
use software_engineering_pla.Shared.{ℕ, ◌+◌, ◌≤◌, ◌≡◌, true, List, All}
use mathlib.Core.List.{Memᴰ}
use software_engineering_pla.Die.Text.{Text}
use software_engineering_pla.Die.Impact.{Arc}
use software_engineering_pla.Die.Impact.Sets.{◌∈◌}

module _ (adjacent : Text → List Arc) (seeds : List Text) where
  -- a walk of n eligible arcs from a seed
  pub data Walk : Text → ℕ → Type 0 where
    begin : {id : Text} → id ∈ seeds → Walk id 0
    extend :
        {id : Text} {n : ℕ}
        → Walk id n
        → (a : Arc) → Memᴰ a (adjacent id)
        → a.is_eligible ≡ true
        → Walk a.target (n + 1)

  -- a node and the length of its shortest walks
  abbrev pub Shortest : Text × ℕ → Type 0
  Shortest r = Walk r.0 r.1 × ((m : ℕ) → Walk r.0 m → r.1 ≤ m)

  -- every eligible arc from the node leads into the set
  abbrev pub Closed : List Text → Text → Type 0
  Closed ts id = All (λ a. a.is_eligible ≡ true → a.target ∈ ts) (adjacent id)
