-- ===== src/Die/Impact/Scan.antt =====
-- The scan of one front of the traversal (backend/die/analysis_query.go, `Impact`).
use mathlib.Core.List.{Memᴰ}
use mathlib.Core.List.Memᴰ.{head, tail}
use software_engineering_pla.Shared.{
  ℕ, ◌+◌, ◌≡◌, refl, sym, subst, inl, inr, true, List, [], ◌∷◌, All,
}
use software_engineering_pla.Die.Text.{Text}
use software_engineering_pla.Die.Impact.{
  Arc, Search, Progress, running, stopped, scan_arc, scan_arcs, scan_front,
}
use software_engineering_pla.Die.Impact.Sets.{◌∈◌, mem-cons_self, mem-cons_tail, mem-cons_cases}
use software_engineering_pla.Die.Impact.Walks.{Walk, extend, Shortest}
use software_engineering_pla.Die.Impact.Stage.{
  ◌⊆◌, After, then, core, Stage, Moved, Covers, scan_arc-Change, Change-Moved,
}

weaken :
    (P Q R S : Search → Type 0) (p : Progress)
    → ((t : Search) → P t → Q t)
    → ((t : Search) → R t → S t)
    → After P R p
    → After Q S p
weaken P Q R S (running s) f g h = f s h
weaken P Q R S (stopped reason s) f g h = g s h

-- the eligible arcs of a list lead into the set
abbrev pub Done : List Text → List Arc → Type 0
Done ts as' = All (λ a. a.is_eligible ≡ true → a.target ∈ ts) as'

pub Done-grow : (ts us : List Text) (as' : List Arc) → ts ⊆ us → Done ts as' → Done us as'
Done-grow ts us [] h d = tt
Done-grow ts us (a ∷ rest) h d = (λ e. h a.target (d.0 e), Done-grow ts us rest h d.1)

pub Done_at :
    (ts : List Text) (as' : List Arc) (a : Arc)
    → Memᴰ a as'
    → Done ts as'
    → a.is_eligible ≡ true
    → a.target ∈ ts
Done_at ts [] a m d h = elim m [ ]
Done_at ts (b ∷ rest) a (head e) d h =
    subst (λ x. x.target ∈ ts) (sym e) (d.0 (subst (λ x. x.is_eligible ≡ true) e h))
Done_at ts (b ∷ rest) a (tail m) d h = Done_at ts rest a m d.1 h

module _ (max_nodes max_edges : ℕ) (adjacent : Text → List Arc) (seeds : List Text) where
  abbrev pub AllShortest : Search → Type 0
  AllShortest s = All (Shortest adjacent seeds) s.reached

  module _ (depth : ℕ) (start : List Text) (cover : Covers adjacent seeds depth start) where
    abbrev Advance : Search → Search → Type 0
    Advance s t = Moved adjacent seeds depth start (core s) (core t)

    Advance-on : (s t u : Search) → Advance s t → Advance t u → Advance s u
    Advance-on s t u m n = record { stage = n.stage; kept = λ id h. n.kept id (m.kept id h) }

    scan_arc-Advance :
        (s : Search) (a : Arc)
        → Stage adjacent seeds depth start (core s)
        → (a.is_eligible ≡ true → Walk adjacent seeds a.target (depth + 1))
        → After
            (λ t. Advance s t × (a.is_eligible ≡ true → a.target ∈ t.local_seen))
            AllShortest
            (scan_arc max_nodes max_edges depth s a)
    scan_arc-Advance s a st w =
        weaken _ _ _ _ (scan_arc max_nodes max_edges depth s a)
          (λ t c. Change-Moved adjacent seeds depth start (core s) (core t) a cover st w c)
          (λ t e. subst (All (Shortest adjacent seeds)) (sym e) st.shortest)
          (scan_arc-Change max_nodes max_edges depth s a)

    scan_arcs-Advance :
        (s : Search) (id : Text) (as' : List Arc)
        → Walk adjacent seeds id depth
        → ((a : Arc) → Memᴰ a as' → Memᴰ a (adjacent id))
        → Stage adjacent seeds depth start (core s)
        → After
            (λ t. Advance s t × Done t.local_seen as')
            AllShortest
            (scan_arcs max_nodes max_edges depth s as')
    unfolding scan_arcs
    scan_arcs-Advance s id [] w sub st = (record { stage = st; kept = λ t h. h }, tt)
    scan_arcs-Advance s id (a ∷ rest) w sub st =
        then _ _ AllShortest (scan_arc max_nodes max_edges depth s a)
          (λ t. scan_arcs max_nodes max_edges depth t rest)
          (scan_arc-Advance s a st (λ e. extend w a (sub a (head refl)) e))
          (λ t m.
            weaken _ _ _ _ (scan_arcs max_nodes max_edges depth t rest)
              (λ u n. (Advance-on s t u m.0 n.0, (λ e. n.0.kept a.target (m.1 e), n.1))) (λ u h. h)
              (scan_arcs-Advance t id rest w (λ b h. sub b (tail h)) m.0.stage))

    pub scan_front-Advance :
        (s : Search) (front : List Text)
        → ((id : Text) → id ∈ front → Walk adjacent seeds id depth)
        → Stage adjacent seeds depth start (core s)
        → After
            (λ t. Advance s t × ((id : Text) → id ∈ front → Done t.local_seen (adjacent id)))
            AllShortest
            (scan_front max_nodes max_edges adjacent depth s front)
    unfolding scan_front
    scan_front-Advance s [] w st = (record { stage = st; kept = λ t h. h }, λ id h. absurd (cc))
    scan_front-Advance s (x ∷ front) w st =
        then _ _ AllShortest (scan_arcs max_nodes max_edges depth s (adjacent x))
          (λ t. scan_front max_nodes max_edges adjacent depth t front)
          (scan_arcs-Advance s x (adjacent x) (w x (mem-cons_self x front)) (λ a h. h) st)
          (λ t m.
            weaken _ _ _ _ (scan_front max_nodes max_edges adjacent depth t front)
              (λ u n. (
                Advance-on s t u m.0 n.0,
                λ id h. elim (mem-cons_cases id x front h) [
                  | inl e ↦
                      subst (λ y. Done u.local_seen (adjacent y)) (sym e)
                        (Done-grow t.local_seen u.local_seen (adjacent x) n.0.kept m.1)
                  | inr o ↦ n.1 id o
                ],
              ))
              (λ u h. h)
              (scan_front-Advance t front (λ id h. w id (mem-cons_tail id x front h)) m.0.stage))
