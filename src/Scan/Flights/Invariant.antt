-- ===== src/Scan/Flights/Invariant.antt =====
-- The flights and their callers along a run (backend/service/repository/scan/implementation.go:
-- `joinFlight`, `leaveFlight`, `runFlight`, `cancelFlight`).
use mathlib.Core.Bool.{false≢true}
use software_engineering_pla.Shared.{
  ℕ, ◌-◌, ◌<◌, ◌≡◌, refl, sym, ◌∙◌, ap, subst, ◌⊎◌, inl, inr, true, false, List, [], ◌∷◌, some,
  ◌==◌, ==_iff, if◌then◌else◌, arith, All, Bool-cases, Option-cases,
}
use software_engineering_pla.Die.Text.{Text}
use software_engineering_pla.Repo.Values.{Scope}
use software_engineering_pla.Scan.Publication.{scan_key}
use software_engineering_pla.Scan.Flights.{
  Flight, Service, flight_key, is_done, set_flight, remove_caller, leave_flight, cancel_flight,
  count,
}

-- every flight of the map is one that is not done, of that key
abbrev pub Listed : Service → Type 0
Listed s =
    (k : Text) (i : ℕ)
    → s.flights k ≡ some i
    → (i < s.next) × (flight_key (s.heap i) ≡ k) × (is_done (s.heap i) ≡ false)

-- a flight that is not done is in the map, counts its callers, and is canceled if it has none
abbrev pub Running : Service → ℕ → Type 0
Running s i =
    (s.flights (flight_key (s.heap i)) ≡ some i)
    × ((s.heap i).interested ≡ count i s.callers)
    × (0 < count i s.callers ⊎ ((s.heap i).is_canceled ≡ true))

pub record Inv (s : Service) : Type 0 where
  pub listed : Listed s
  pub runs : (i : ℕ) → i < s.next → is_done (s.heap i) ≡ false → Running s i
  pub known : All (λ i. i < s.next) s.callers

pub count_fresh : (n : ℕ) (callers : List ℕ) → All (λ i. i < n) callers → count n callers ≡ 0
count_fresh n [] h = refl
count_fresh n (j ∷ callers) h = ground (arith, count_fresh n callers h.1)

count-remove_caller :
    (i j : ℕ) (callers : List ℕ)
    → count j (remove_caller i callers) ≡ (if j == i then count j callers - 1 else count j callers)
count-remove_caller i j [] = ground arith
count-remove_caller i j (k ∷ callers) = ground (arith, count-remove_caller i j callers)

All-remove_caller :
    (n i : ℕ) (callers : List ℕ)
    → All (λ j. j < n) callers
    → All (λ j. j < n) (remove_caller i callers)
All-remove_caller n i [] h = tt
All-remove_caller n i (j ∷ callers) h = elim (Bool-cases (j == i)) [
  | inl e ↦ rw e h.1
  | inr e ↦ rw e (h.0, All-remove_caller n i callers h.1)
]

-- a flight is replaced by one of its key, done if it was, and the callers change with it
module _ (s : Service) (i : ℕ) (f : Flight) (callers : List ℕ) (inv : Inv s)
    (same_key : flight_key f ≡ flight_key (s.heap i)) (same_done : is_done f ≡ is_done (s.heap i))
    (others : (j : ℕ) → j == i ≡ false → count j callers ≡ count j s.callers)
    (counted : is_done f ≡ false → f.interested ≡ count i callers)
    (kept : is_done f ≡ false → (0 < count i callers) ⊎ (f.is_canceled ≡ true))
    (known : All (λ j. j < s.next) callers) where
  abbrev touched : Service
  touched = record s { heap = set_flight s.heap i f; callers = callers }

  Listed-touched : Listed touched
  Listed-touched k j h = elim (Bool-cases (j == i)) [
    | inl e ↦
        let same = (==_iff j i).0 e in
        let (n, key, d) = inv.listed k j h in
        rw e (
          n,
          same_key ∙ ap (λ x. flight_key (s.heap x)) (sym same) ∙ key,
          same_done ∙ ap (λ x. is_done (s.heap x)) (sym same) ∙ d,
        )
    | inr e ↦ rw e (inv.listed k j h)
  ]

  Running-touched :
      (j : ℕ) → j < s.next → is_done (set_flight s.heap i f j) ≡ false → Running touched j
  Running-touched j n d = elim (Bool-cases (j == i)) [
    | inl e ↦
        let same = (==_iff j i).0 e in
        let done : is_done f ≡ false = ground (arith, e, d) in
        let (listed, _, _) = inv.runs i (subst (λ x. x < s.next) same n) (sym same_done ∙ done) in
        rw e (
          subst
            (λ x.
              (s.flights (flight_key f) ≡ some x)
              × (f.interested ≡ count x callers)
              × ((0 < count x callers) ⊎ (f.is_canceled ≡ true)))
            (sym same) (ap s.flights same_key ∙ listed, counted done, kept done))
    | inr e ↦ rw e (
        let (listed, counts, or_canceled) = inv.runs j n (ground (arith, e, d)) in
        let o = others j e in
        (
          listed,
          counts ∙ sym o,
          subst (λ x. (0 < x) ⊎ ((s.heap j).is_canceled ≡ true)) (sym o) or_canceled,
        ))
  ]

  pub Inv-touched : Inv touched
  Inv-touched = record { listed = Listed-touched; runs = Running-touched; known = known }

pub count_removed_other :
    (i j : ℕ) (callers : List ℕ)
    → j == i ≡ false
    → count j (remove_caller i callers) ≡ count j callers
count_removed_other i j callers e = ground (arith, e, count-remove_caller i j callers)

count_removed : (i : ℕ) (callers : List ℕ) → count i (remove_caller i callers) ≡ count i callers - 1
count_removed i callers = ground (arith, (==_iff i i).1 refl, count-remove_caller i i callers)

known_caller : (n i : ℕ) (callers : List ℕ) → All (λ j. j < n) callers → 0 < count i callers → i < n
known_caller n i [] h p = absurd (omega (arith, p))
known_caller n i (j ∷ callers) h p = elim (Bool-cases (j == i)) [
  | inl e ↦ subst (λ x. x < n) ((==_iff j i).0 e) h.0
  | inr e ↦ known_caller n i callers h.1 (ground (arith, e, p))
]

-- a done flight loses a caller
pub Inv-collect :
    (s : Service) (i : ℕ)
    → Inv s
    → is_done (s.heap i) ≡ true
    → Inv (record s { callers = remove_caller i s.callers })
Inv-collect s i inv done = record {
  listed = inv.listed;
  runs = λ j n d.
      let (listed, counts, or_canceled) = inv.runs j n d in
      let o = count_removed_other i j s.callers (distinct j d) in
      (
        listed,
        counts ∙ sym o,
        subst (λ x. (0 < x) ⊎ ((s.heap j).is_canceled ≡ true)) (sym o) or_canceled,
      );
  known = All-remove_caller s.next i s.callers inv.known;
}
  where
    distinct : (j : ℕ) → is_done (s.heap j) ≡ false → j == i ≡ false
    distinct j d = elim (Bool-cases (j == i)) [
      | inr e ↦ e
      | inl e ↦ absurd (false≢true (sym d ∙ ap (λ x. is_done (s.heap x)) ((==_iff j i).0 e) ∙ done))
    ]

pub Inv-leave_flight :
    (s : Service) (i : ℕ) → Inv s → 0 < count i s.callers → Inv (leave_flight s i)
unfolding leave_flight
Inv-leave_flight s i inv h = elim (Bool-cases (is_done (s.heap i))) [
  | inl d ↦ rw d (Inv-collect s i inv d)
  | inr d ↦
      let (_, counts, _) = inv.runs i (known_caller s.next i s.callers inv.known h) d in
      let removed = count_removed i s.callers in
      rw d (
        Inv-touched s i _ (remove_caller i s.callers) inv refl refl
          (λ j e. count_removed_other i j s.callers e) (λ _. omega (arith, counts, removed))
          (λ _. elim (Bool-cases ((s.heap i).interested - 1 == 0)) [
            | inl z ↦ inr (ground (arith, z))
            | inr z ↦ inl (ground (arith, z, counts, removed))
          ])
          (All-remove_caller s.next i s.callers inv.known))
]

pub Inv-cancel_flight :
    (s : Service) (scope : Scope) (repository_id scan_id : Text)
    → Inv s
    → Inv (cancel_flight s scope repository_id scan_id)
unfolding cancel_flight
Inv-cancel_flight s scope repository_id scan_id inv =
    elim (Option-cases (s.flights (scan_key scope repository_id scan_id))) [
      | inl e ↦ rw (cancel_flight, e) inv
      | inr (i, e) ↦
          let (n, _, d) = inv.listed (scan_key scope repository_id scan_id) i e in
          let (_, counts, _) = inv.runs i n d in
          rw (cancel_flight, e)
            (Inv-touched s i (record (s.heap i) { is_canceled = true }) s.callers inv refl refl
              (λ j _. refl) (λ _. counts) (λ _. inr refl) inv.known)
    ]
