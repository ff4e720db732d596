-- ===== src/Scan/Flights/Single.antt =====
-- One flight for a scan (backend/service/repository/scan/implementation.go: `joinFlight`, `runFlight`).
use mathlib.Core.Bool.{false≢true}
use software_engineering_pla.Shared.{
  ℕ, ◌+◌, ◌<◌, ◌≡◌, refl, sym, ◌∙◌, ap, subst, ◌⊎◌, inl, inr, Bool, true, false, List, [], ◌∷◌,
  Option, none, some, ◌==◌, ==_iff, arith, All, Bool-cases, Option-cases,
}
use software_engineering_pla.Die.Text.{Text, text_eq}
use software_engineering_pla.Die.Text.Order.{text_eq_sound, text_eq_refl}
use software_engineering_pla.Repo.Errors.{Outcome}
use software_engineering_pla.Repo.Values.{ExecuteScanRequest, ScanResult}
use software_engineering_pla.Scan.Publication.{requests_equivalent}
use software_engineering_pla.Scan.Flights.{
  Flight, Service, request_key, flight_key, is_done, set_flight, set_key, join_flight,
  finish_flight, count, Step, arrives, leaves, finishes, collects, cancels, Reach, here, after,
}
use software_engineering_pla.Scan.Flights.Invariant.{
  Listed, Running, Inv, Inv-touched, count_fresh, Inv-collect, Inv-leave_flight, Inv-cancel_flight,
}

abbrev or_zero : Option ℕ → ℕ
or_zero (some i) = i
or_zero none = 0

some_injective : (i j : ℕ) → some i ≡ some j → i ≡ j
some_injective i j e = ap or_zero e

not-== : (i j : ℕ) → (i ≡ j → ⊥) → i == j ≡ false
not-== i j h = elim (Bool-cases (i == j)) [ inl e ↦ absurd (h ((==_iff i j).0 e)) | inr e ↦ e ]

not-text_eq : (a b : Text) → (a ≡ b → ⊥) → text_eq a b ≡ false
not-text_eq a b h = elim (Bool-cases (text_eq a b)) [
  | inl e ↦ absurd (h (text_eq_sound a b e))
  | inr e ↦ e
]

abbrev is_some {ℓ} : {A : Type ℓ} → Option A → Bool
is_some (some a) = true
is_some none = false

none≢some : (i : ℕ) → none ≡ some i → ⊥
none≢some i e = false≢true (ap is_some e)

module _ (flights : Text → Option ℕ) (key : Text) (v : Option ℕ) (k : Text) where
  set_key_same : text_eq k key ≡ true → set_key flights key v k ≡ v
  set_key_same e = rw e refl

  set_key_other : text_eq k key ≡ false → set_key flights key v k ≡ flights k
  set_key_other e = rw e refl

All-raise : (n : ℕ) (callers : List ℕ) → All (λ i. i < n) callers → All (λ i. i < n + 1) callers
All-raise n [] h = tt
All-raise n (i ∷ callers) h = (omega (arith, h.0), All-raise n callers h.1)

module _ (s : Service) (request : ExecuteScanRequest) (inv : Inv s)
    (free : s.flights (request_key request) ≡ none) where
  abbrev opened_flight : Flight
  opened_flight = record { request = request; is_canceled = false; interested = 1; outcome = none }

  abbrev with_flight : Service
  with_flight = record {
    next = s.next + 1;
    heap = set_flight s.heap s.next opened_flight;
    flights = set_key s.flights (request_key request) (some s.next);
    callers = s.next ∷ s.callers;
  }

  Listed-with_flight : Listed with_flight
  Listed-with_flight k j h = elim (Bool-cases (text_eq k (request_key request))) [
    | inl e ↦
        let self = (==_iff s.next s.next).1 refl in
        let given = set_key_same s.flights (request_key request) (some s.next) k e in
        subst
          (λ x.
            (x < s.next + 1)
            × (flight_key (with_flight.heap x) ≡ k)
            × (is_done (with_flight.heap x) ≡ false))
          (some_injective s.next j (sym given ∙ h))
          (rw self (omega arith, sym (text_eq_sound k (request_key request) e), refl))
    | inr e ↦
        let given = set_key_other s.flights (request_key request) (some s.next) k e in
        let (n, key, d) = inv.listed k j (sym given ∙ h) in
        rw (not-== j s.next (λ q. omega (arith, n, q))) (omega (arith, n), key, d)
  ]

  Running-with_flight :
      (j : ℕ) → j < s.next + 1 → is_done (with_flight.heap j) ≡ false → Running with_flight j
  Running-with_flight j n d = elim (Bool-cases (j == s.next)) [
    | inl e ↦
        let self = (==_iff s.next s.next).1 refl in
        let key = request_key request in
        let fresh = count_fresh s.next s.callers inv.known in
        subst (Running with_flight) (sym ((==_iff j s.next).0 e)) (
          rw self (
            set_key_same s.flights key (some s.next) key (text_eq_refl key),
            ground (arith, self, fresh),
            inl (ground (arith, self)),
          ))
    | inr e ↦
        let key = request_key request in
        let (listed, counts, or_canceled) =
          inv.runs j (ground (arith, n, e)) (ground (arith, e, d)) in
        let distinct =
          not-text_eq (flight_key (s.heap j)) key
            (λ q. none≢some j (sym free ∙ ap s.flights (sym q) ∙ listed)) in
        let same : count j (s.next ∷ s.callers) ≡ count j s.callers = ground (arith, e) in
        rw e (
          set_key_other s.flights key (some s.next) (flight_key (s.heap j)) distinct ∙ listed,
          counts ∙ sym same,
          subst (λ x. (0 < x) ⊎ ((s.heap j).is_canceled ≡ true)) (sym same) or_canceled,
        )
  ]

  Inv-with_flight : Inv with_flight
  Inv-with_flight = record {
    listed = Listed-with_flight;
    runs = Running-with_flight;
    known = (omega arith, All-raise s.next s.callers inv.known);
  }

module _ (s : Service) (i : ℕ) (outcome : Outcome ScanResult) (inv : Inv s) (n : i < s.next)
    (running : is_done (s.heap i) ≡ false) where
  Listed-finish_flight : Listed (finish_flight s i outcome)
  unfolding finish_flight
  Listed-finish_flight k j h = elim (Bool-cases (text_eq k (flight_key (s.heap i)))) [
    | inl e ↦
        absurd (none≢some j (sym (set_key_same s.flights (flight_key (s.heap i)) none k e) ∙ h))
    | inr e ↦
        let given = set_key_other s.flights (flight_key (s.heap i)) none k e in
        let (m, key, d) = inv.listed k j (sym given ∙ h) in
        rw
          (not-== j i (λ q. false≢true (
            sym e
            ∙ subst (λ x. text_eq k x ≡ true) (sym key ∙ ap (λ x. flight_key (s.heap x)) q)
                (text_eq_refl k))))
          (m, key, d)
  ]

  Running-finish_flight :
      (j : ℕ)
      → j < s.next
      → is_done ((finish_flight s i outcome).heap j) ≡ false
      → Running (finish_flight s i outcome) j
  unfolding finish_flight
  Running-finish_flight j m d = elim (Bool-cases (j == i)) [
    | inl e ↦ absurd (ground (arith, e, d))
    | inr e ↦
        let (listed, counts, or_canceled) = inv.runs j m (ground (arith, e, d)) in
        let distinct = not-text_eq (flight_key (s.heap j)) (flight_key (s.heap i)) (λ q.
          let same = some_injective j i (sym listed ∙ ap s.flights q ∙ (inv.runs i n running).0) in
          false≢true (sym e ∙ (==_iff j i).1 same)) in
        rw e (
          set_key_other s.flights (flight_key (s.heap i)) none (flight_key (s.heap j)) distinct
              ∙ listed,
          counts,
          or_canceled,
        )
  ]

  Inv-finish_flight : Inv (finish_flight s i outcome)
  unfolding finish_flight
  Inv-finish_flight = record {
    listed = Listed-finish_flight;
    runs = Running-finish_flight;
    known = inv.known;
  }

Inv-join_flight :
    (s : Service) (request : ExecuteScanRequest) → Inv s → Inv (join_flight s request).service
unfolding join_flight
Inv-join_flight s request inv = elim (Option-cases (s.flights (request_key request))) [
  | inr (i, e) ↦
      rw (join_flight, e)
        (elim (Bool-cases (requests_equivalent (s.heap i).request request)) [
          | inl q ↦
              let (n, _, d) = inv.listed (request_key request) i e in
              let (_, counts, _) = inv.runs i n d in
              let self = (==_iff i i).1 refl in
              rw q (
                Inv-touched s i (record (s.heap i) { interested = (s.heap i).interested + 1 })
                  (i ∷ s.callers) inv refl refl (λ j o. ground (arith, o))
                  (λ _. ground (arith, counts, self)) (λ _. inl (ground (arith, self)))
                  (n, inv.known))
          | inr q ↦ rw q inv
        ])
  | inl e ↦ rw (join_flight, e) (Inv-with_flight s request inv e)
]

Step-Inv : {s t : Service} → Step s t → Inv s → Inv t
Step-Inv (arrives request) inv = Inv-join_flight _ request inv
Step-Inv (leaves i h) inv = Inv-leave_flight _ i inv h
Step-Inv (finishes i outcome n d) inv = Inv-finish_flight _ i outcome inv n d
Step-Inv (collects i d) inv = Inv-collect _ i inv d
Step-Inv (cancels scope repository_id scan_id) inv =
    Inv-cancel_flight _ scope repository_id scan_id inv

-- a service as `New` makes it
abbrev pub IsFresh : Service → Type 0
IsFresh s = (s.next ≡ 0) × ((k : Text) → s.flights k ≡ none) × (s.callers ≡ [])

IsFresh-Inv : (s : Service) → IsFresh s → Inv s
IsFresh-Inv s (n, empty, callers) = record {
  listed = λ k i h. absurd (none≢some i (sym (empty k) ∙ h));
  runs = λ i h d. absurd (omega (arith, n, h));
  known = subst (All (λ i. i < s.next)) (sym callers) tt;
}

pub Reach-Inv : {s t : Service} → IsFresh s → Reach s t → Inv t
Reach-Inv fresh here = IsFresh-Inv _ fresh
Reach-Inv fresh (after r st) = Step-Inv st (Reach-Inv fresh r)

-- In every service reached from a fresh one by calls, ends of flights and cancellations in any order: two
-- flights of one key that are not done are the same flight; a flight that is not done is the one that
-- the map has for its key, `interested` is the number of callers that wait for it, and it
-- is canceled when no caller waits.
pub Reach-one_flight :
    (s t : Service)
    → IsFresh s
    → Reach s t
    → (i j : ℕ) → i < t.next
    → j < t.next
    → is_done (t.heap i) ≡ false
    → is_done (t.heap j) ≡ false
    → flight_key (t.heap i) ≡ flight_key (t.heap j)
    → (i ≡ j) × Running t i
Reach-one_flight s t fresh r i j n m d e q =
    let inv = Reach-Inv fresh r in
    let own = inv.runs i n d in
    (some_injective i j (sym own.0 ∙ ap t.flights q ∙ (inv.runs j m e).0), own)
