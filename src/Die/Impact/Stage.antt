-- ===== src/Die/Impact/Stage.antt =====
-- What a scanned arc changes in the traversal (backend/die/analysis_query.go, `Impact`), and what
-- holds of the search while the front of one depth is scanned.
use software_engineering_pla.Shared.{
  ℕ, ◌+◌, ◌≤◌, ◌≡◌, refl, sym, subst, ◌⊎◌, inl, inr, true, false, List, ◌∷◌, map, arith, All,
  Bool-cases, ◌==◌, dec_lt,
}
use software_engineering_pla.Die.Text.{Text}
use software_engineering_pla.Die.Graph.{contains_text}
use software_engineering_pla.Die.Impact.{
  Arc, Search, Progress, running, stopped, discover, scan_arc,
}
use software_engineering_pla.Die.Impact.Sets.{
  ◌∈◌, mem-cons_self, mem-cons_eq, mem-cons_tail, mem-cons_cases,
}
use software_engineering_pla.Die.Impact.Walks.{Walk, Shortest}

infix 50 ◌⊆◌
abbrev pub ◌⊆◌ : List Text → List Text → Type 0
ts ⊆ us = (id : Text) → id ∈ ts → id ∈ us

-- one property of the search if the loop goes on, another if it is left
abbrev pub After : (Search → Type 0) → (Search → Type 0) → Progress → Type 0
After P Q (running s) = P s
After P Q (stopped _ s) = Q s

pub then :
    (P Q R : Search → Type 0) (p : Progress) (k : Search → Progress)
    → After P R p
    → ((t : Search) → P t → After Q R (k t))
    → After Q R (elim p [ stopped reason t ↦ stopped reason t | running t ↦ k t ])
then P Q R (running s) k h f = f s h
then P Q R (stopped reason s) k h f = h

-- the part of the search that says what is reached
pub record Core : Type 0 where
  pub local_seen : List Text
  pub reached : List (Text × ℕ)
  pub next : List Text

abbrev pub core : Search → Core
core s = record { local_seen = s.local_seen; reached = s.reached; next = s.next }

-- the arc's target added to the core
abbrev arrived : ℕ → Core → Arc → Core
arrived depth c a = record {
  local_seen = a.target ∷ c.local_seen;
  reached = (a.target, depth + 1) ∷ c.reached;
  next = a.target ∷ c.next;
}

-- nothing new, and the target known if the arc is eligible; or the target of an eligible arc is new
abbrev pub Change : ℕ → Core → Arc → Core → Type 0
Change depth c a c' =
    ((c' ≡ c) × (a.is_eligible ≡ true → a.target ∈ c.local_seen))
    ⊎ ((c' ≡ arrived depth c a)
        × (a.is_eligible ≡ true)
        × (contains_text a.target c.local_seen ≡ false))

discover-Change : (d : ℕ) (s : Search) (a : Arc) → Change d (core s) a (core (discover d s a))
unfolding discover
discover-Change d s a = elim (Bool-cases a.is_eligible) [
  | inr e ↦ elim (Bool-cases (contains_text a.target s.local_seen)) [
    | inl f ↦ inl (rw (e, f) refl, λ g. ground arith)
    | inr f ↦ inl (rw (e, f) refl, λ g. ground arith)
  ]
  | inl e ↦ elim (Bool-cases (contains_text a.target s.local_seen)) [
    | inl f ↦ inl (rw (e, f) refl, λ g. f)
    | inr f ↦ inr (rw (e, f) refl, e, f)
  ]
]

module _ (max_nodes max_edges : ℕ) where
  pub scan_arc-Change :
      (d : ℕ) (s : Search) (a : Arc)
      → After
          (λ t. Change d (core s) a (core t))
          (λ t. t.reached ≡ s.reached)
          (scan_arc max_nodes max_edges d s a)
  unfolding scan_arc
  scan_arc-Change d s a = elim (Bool-cases (s.scanned == max_edges)) [
    | inl e ↦ rw e refl
    | inr e ↦ elim (Bool-cases (contains_text a.target s.seen)) [
      | inl f ↦ rw (e, f) (discover-Change d (record s { scanned = s.scanned + 1 }) a)
      | inr f ↦ elim (Bool-cases (s.visited == max_nodes)) [
        | inl g ↦ rw (e, f, g) refl
        | inr g ↦
            rw (e, f, g)
              (discover-Change d
                (record s {
                  seen = a.target ∷ s.seen;
                  visited = s.visited + 1;
                  scanned = s.scanned + 1;
                })
                a)
      ]
    ]
  ]

module _ (adjacent : Text → List Arc) (seeds : List Text) where
  -- While the front at `depth` is scanned: what was known at its start is still known, the rest is the
  -- next front and one arc further, and what is reported is reported with its least depth.
  pub record Stage (depth : ℕ) (start : List Text) (c : Core) : Type 0 where
    pub grown : start ⊆ c.local_seen
    pub origin : (id : Text) → id ∈ c.local_seen → id ∈ start ⊎ id ∈ c.next
    pub fresh : (id : Text) → id ∈ c.next → Walk adjacent seeds id (depth + 1)
    pub known : c.next ⊆ c.local_seen
    pub shortest : All (Shortest adjacent seeds) c.reached
    pub recorded : (id : Text) → id ∈ c.local_seen → id ∈ seeds ⊎ id ∈ map (λ r. r.0) c.reached

  -- every node within `depth` arcs of a seed
  abbrev pub Covers : ℕ → List Text → Type 0
  Covers depth ts = (id : Text) (n : ℕ) → Walk adjacent seeds id n → n ≤ depth → id ∈ ts

  -- a step of the scan: the stage holds, and nothing is forgotten
  pub record Moved (depth : ℕ) (start : List Text) (c c' : Core) : Type 0 where
    pub stage : Stage depth start c'
    pub kept : c.local_seen ⊆ c'.local_seen

  arrived-Shortest :
      (depth : ℕ) (start : List Text) (c : Core) (a : Arc)
      → Covers depth start
      → Stage depth start c
      → Walk adjacent seeds a.target (depth + 1)
      → contains_text a.target c.local_seen ≡ false
      → Shortest adjacent seeds (a.target, depth + 1)
  arrived-Shortest depth start c a cover st w new = (
    w,
    λ m v. elim (dec_lt depth m) [
      | yes p ↦ omega arith
      | no p ↦
          let old = st.grown a.target (cover a.target m v (omega arith)) in absurd (ground arith)
    ],
  )

  arrived-Moved :
      (depth : ℕ) (start : List Text) (c : Core) (a : Arc)
      → Covers depth start
      → Stage depth start c
      → Walk adjacent seeds a.target (depth + 1)
      → contains_text a.target c.local_seen ≡ false
      → Moved depth start c (arrived depth c a)
  arrived-Moved depth start c a cover st w new = record {
    stage = record {
      grown = λ id h. mem-cons_tail id a.target c.local_seen (st.grown id h);
      origin = λ id h. elim (mem-cons_cases id a.target c.local_seen h) [
        | inl e ↦ inr (mem-cons_eq id a.target c.next e)
        | inr o ↦ elim (st.origin id o) [
          | inl b ↦ inl b
          | inr b ↦ inr (mem-cons_tail id a.target c.next b)
        ]
      ];
      fresh = λ id h. elim (mem-cons_cases id a.target c.next h) [
        | inl e ↦ rw e w
        | inr o ↦ st.fresh id o
      ];
      known = λ id h. elim (mem-cons_cases id a.target c.next h) [
        | inl e ↦ mem-cons_eq id a.target c.local_seen e
        | inr o ↦ mem-cons_tail id a.target c.local_seen (st.known id o)
      ];
      shortest = (arrived-Shortest depth start c a cover st w new, st.shortest);
      recorded = λ id h. elim (mem-cons_cases id a.target c.local_seen h) [
        | inl e ↦ inr (mem-cons_eq id a.target (map (λ r. r.0) c.reached) e)
        | inr o ↦ elim (st.recorded id o) [
          | inl b ↦ inl b
          | inr b ↦ inr (mem-cons_tail id a.target (map (λ r. r.0) c.reached) b)
        ]
      ];
    };
    kept = λ id h. mem-cons_tail id a.target c.local_seen h;
  }

  pub Change-Moved :
      (depth : ℕ) (start : List Text) (c c' : Core) (a : Arc)
      → Covers depth start
      → Stage depth start c
      → (a.is_eligible ≡ true → Walk adjacent seeds a.target (depth + 1))
      → Change depth c a c'
      → Moved depth start c c' × (a.is_eligible ≡ true → a.target ∈ c'.local_seen)
  Change-Moved depth start c c' a cover st w (inl (same, known)) = (
    subst (Moved depth start c) (sym same) (record { stage = st; kept = λ id h. h }),
    λ e. subst (λ x. a.target ∈ x.local_seen) (sym same) (known e),
  )
  Change-Moved depth start c c' a cover st w (inr (there, e, new)) = (
    subst (Moved depth start c) (sym there) (arrived-Moved depth start c a cover st (w e) new),
    λ f. subst (λ x. a.target ∈ x.local_seen) (sym there) (mem-cons_self a.target c.local_seen),
  )
