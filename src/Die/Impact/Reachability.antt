-- ===== src/Die/Impact/Reachability.antt =====
-- The levels of the traversal (backend/die/analysis_query.go, `Impact`) against walks.
use software_engineering_pla.Shared.{
  ℕ, zero, suc, ◌+◌, ◌≤◌, ◌≡◌, sym, subst, ◌∙◌, ◌⊎◌, inl, inr, List, [], ◌∷◌, map, arith, All,
}
use software_engineering_pla.Die.Text.{Text, text_lt, sort_by}
use software_engineering_pla.Die.Impact.{
  Arc, Search, Progress, running, stopped, scan_front, levels, initial, traverse,
}
use software_engineering_pla.Die.Impact.Bounds.{search_of}
use software_engineering_pla.Die.Impact.Sets.{◌∈◌, contains_text-sort_by}
use software_engineering_pla.Die.Impact.Walks.{Walk, begin, extend, Shortest, Closed}
use software_engineering_pla.Die.Impact.Stage.{◌⊆◌, After, then, core, Stage, Covers}
use software_engineering_pla.Die.Impact.Scan.{
  Done, Done-grow, Done_at, AllShortest, scan_front-Advance,
}

module _ (max_nodes max_edges : ℕ) (adjacent : Text → List Arc) (seeds : List Text) where
  -- what holds when the front of `depth` is about to be scanned
  record Front (depth : ℕ) (front : List Text) (s : Search) : Type 0 where
    pub cover : Covers adjacent seeds depth s.local_seen
    pub walks : (id : Text) → id ∈ front → Walk adjacent seeds id depth
    pub closed :
        (id : Text) → id ∈ s.local_seen → id ∈ front ⊎ Closed adjacent seeds s.local_seen id
    pub shortest : (AllShortest max_nodes max_edges adjacent seeds) s
    pub recorded : (id : Text) → id ∈ s.local_seen → id ∈ seeds ⊎ id ∈ map (λ r. r.0) s.reached

  Front-Stage :
      (depth : ℕ) (front : List Text) (s : Search)
      → Front depth front s
      → Stage adjacent seeds depth s.local_seen (core (record s { next = [] }))
  Front-Stage depth front s f = record {
    grown = λ id h. h;
    origin = λ id h. inl h;
    fresh = λ id h. absurd (cc);
    known = λ id h. absurd (cc);
    shortest = f.shortest;
    recorded = f.recorded;
  }

  -- after the scan every arc from the known nodes of its start has been followed
  followed :
      (depth : ℕ) (front : List Text) (s t : Search)
      → Front depth front s
      → s.local_seen ⊆ t.local_seen
      → ((id : Text) → id ∈ front → Done t.local_seen (adjacent id))
      → (id : Text) → id ∈ s.local_seen
      → Done t.local_seen (adjacent id)
  followed depth front s t f grow done id h = elim (f.closed id h) [
    | inl o ↦ done id o
    | inr o ↦ Done-grow s.local_seen t.local_seen (adjacent id) grow o
  ]

  cover_next :
      (depth : ℕ) (s t : Search)
      → Covers adjacent seeds depth s.local_seen
      → s.local_seen ⊆ t.local_seen
      → ((id : Text) → id ∈ s.local_seen → Done t.local_seen (adjacent id))
      → Covers adjacent seeds (depth + 1) t.local_seen
  cover_next depth s t cover grow done id zero (begin h) le =
      grow id (cover id 0 (begin h) (omega arith))
  cover_next depth s t cover grow done _ _ (extend {id = id} {n = n} w a m e) le =
      Done_at t.local_seen (adjacent id) a m (done id (cover id n w (omega arith))) e

  next-Front :
      (depth : ℕ) (front : List Text) (s t : Search)
      → Front depth front s
      → Stage adjacent seeds depth s.local_seen (core t)
      → ((id : Text) → id ∈ front → Done t.local_seen (adjacent id))
      → Front (depth + 1) (sort_by text_lt t.next) t
  next-Front depth front s t f st done =
      let all = followed depth front s t f st.grown done in
      record {
        cover = cover_next depth s t f.cover st.grown all;
        walks = λ id h. st.fresh id (sym (contains_text-sort_by id t.next) ∙ h);
        closed = λ id h. elim (st.origin id h) [
          | inl o ↦ inr (all id o)
          | inr o ↦ inl (contains_text-sort_by id t.next ∙ o)
        ];
        shortest = st.shortest;
        recorded = st.recorded;
      }

  -- the search is over: what walks reach is known, and what is known is a seed or reported
  record Complete (s : Search) : Type 0 where
    pub known : (id : Text) (n : ℕ) → Walk adjacent seeds id n → id ∈ s.local_seen
    pub shortest : (AllShortest max_nodes max_edges adjacent seeds) s
    pub recorded : (id : Text) → id ∈ s.local_seen → id ∈ seeds ⊎ id ∈ map (λ r. r.0) s.reached

  all_known :
      (depth : ℕ) (s : Search)
      → Front depth [] s
      → (id : Text) (n : ℕ) → Walk adjacent seeds id n
      → id ∈ s.local_seen
  all_known depth s f id _ (begin h) = f.cover id 0 (begin h) (omega arith)
  all_known depth s f _ _ (extend {id = id} {n = n} w a m e) =
      elim (f.closed id (all_known depth s f id n w)) [
        | inl o ↦ absurd (cc)
        | inr o ↦ Done_at s.local_seen (adjacent id) a m o e
      ]

  levels-Complete :
      (left depth : ℕ) (s : Search) (front : List Text)
      → Front depth front s
      → After Complete
          (AllShortest max_nodes max_edges adjacent seeds)
          (levels max_nodes max_edges adjacent left depth s front)
  unfolding levels
  levels-Complete left depth s [] f = record {
    known = all_known depth s f;
    shortest = f.shortest;
    recorded = f.recorded;
  }
  levels-Complete zero depth s (id ∷ front) f = f.shortest
  levels-Complete (suc left) depth s (id ∷ front) f =
      then _ _ (AllShortest max_nodes max_edges adjacent seeds)
        (scan_front max_nodes max_edges adjacent depth (record s { next = [] }) (id ∷ front))
        (λ t. levels max_nodes max_edges adjacent left (depth + 1) t (sort_by text_lt t.next))
        (scan_front-Advance max_nodes max_edges adjacent seeds depth s.local_seen f.cover
          (record s { next = [] }) (id ∷ front) f.walks (Front-Stage depth (id ∷ front) s f))
        (λ t m.
          levels-Complete left (depth + 1) t (sort_by text_lt t.next)
            (next-Front depth (id ∷ front) s t f m.0.stage m.1))

  initial-Front : Front 0 seeds (initial seeds)
  initial-Front = record {
    cover = λ id n w le. covered id n w le;
    walks = λ id h. begin h;
    closed = λ id h. inl h;
    shortest = tt;
    recorded = λ id h. inl h;
  }
    where
      covered : (id : Text) (n : ℕ) → Walk adjacent seeds id n → n ≤ 0 → id ∈ seeds
      covered id _ (begin h) le = h
      covered _ _ (extend w a m e) le = absurd (omega arith)

  traverse-Complete :
      (max_depth : ℕ)
      → After Complete
          (AllShortest max_nodes max_edges adjacent seeds)
          (traverse max_nodes max_edges max_depth adjacent seeds)
  unfolding traverse
  traverse-Complete max_depth = levels-Complete max_depth 0 (initial seeds) seeds initial-Front

  shortest_of :
      (p : Progress)
      → After Complete (AllShortest max_nodes max_edges adjacent seeds) p
      → (AllShortest max_nodes max_edges adjacent seeds) (search_of p)
  shortest_of (running s) c = c.shortest
  shortest_of (stopped reason s) h = h

-- Every node that the traversal reports, cut short or not, is reached by a walk of eligible edges
-- from a seed whose length is the reported depth, and no walk to it is shorter.
pub traverse_sound :
    (max_nodes max_edges max_depth : ℕ) (adjacent : Text → List Arc) (seeds : List Text)
    → All
        (Shortest adjacent seeds)
        (search_of (traverse max_nodes max_edges max_depth adjacent seeds)).reached
traverse_sound max_nodes max_edges max_depth adjacent seeds =
    shortest_of max_nodes max_edges adjacent seeds
      (traverse max_nodes max_edges max_depth adjacent seeds)
      (traverse-Complete max_nodes max_edges adjacent seeds max_depth)

-- A traversal that no limit cuts short reports every node that a walk of eligible edges leads to from
-- a seed, except the seeds.
pub traverse_complete :
    (max_nodes max_edges max_depth : ℕ) (adjacent : Text → List Arc) (seeds : List Text)
    (s : Search)
    → traverse max_nodes max_edges max_depth adjacent seeds ≡ running s
    → (id : Text) (n : ℕ) → Walk adjacent seeds id n
    → id ∈ seeds ⊎ id ∈ map (λ r. r.0) s.reached
traverse_complete max_nodes max_edges max_depth adjacent seeds s e id n w =
    let c =
      subst
        (After (Complete max_nodes max_edges adjacent seeds)
          (AllShortest max_nodes max_edges adjacent seeds))
        e (traverse-Complete max_nodes max_edges adjacent seeds max_depth) in
    c.recorded id (c.known id n w)
