-- ===== src/Scan/Flights/Sharing.antt =====
-- What the callers of a flight share (backend/service/repository/scan/implementation.go: `ExecuteScan`,
-- `joinFlight`, `leaveFlight`, `cancelFlight`).
use software_engineering_pla.Shared.{
  ℕ, some, ◌<◌, ◌≡◌, refl, ◌∙◌, ap, subst, inl, inr, Bool, true, false, ◌==◌, ==_iff, arith,
  Bool-cases, Option-cases,
}
use software_engineering_pla.Die.Text.{is_empty}
use software_engineering_pla.Die.Text.Order.{text_eq_sound}
use software_engineering_pla.Repo.Errors.{Outcome, fails, gives}
use software_engineering_pla.Repo.Values.{joined, ScanResult, ExecuteScanRequest}
use software_engineering_pla.Repo.Contract.{new_scan_result}
use software_engineering_pla.Scan.Errors.{live_context}
use software_engineering_pla.Scan.Outcomes.{delivers}
use software_engineering_pla.Scan.Publication.{requests_equivalent}
use software_engineering_pla.Scan.Flights.Single.{IsFresh, Reach-Inv}
use software_engineering_pla.Scan.Flights.{
  Service, request_key, flight_key, is_done, join_flight, leave_flight, finish_flight,
  cancel_flight, receive, Step, arrives, leaves, finishes, collects, cancels, Reach, here, after,
}

-- a flight that there is and that is canceled
abbrev pub Canceled : Service → ℕ → Type 0
Canceled s i = (i < s.next) × ((s.heap i).is_canceled ≡ true)

Canceled-join_flight :
    (s : Service) (request : ExecuteScanRequest) (i : ℕ)
    → Canceled s i
    → Canceled (join_flight s request).service i
unfolding join_flight
Canceled-join_flight s request i h = elim (Option-cases (s.flights (request_key request))) [
  | inl e ↦ ground (arith, e)
  | inr (j, e) ↦ elim (Bool-cases (i == j)) [
    | inl q ↦
        let g : (s.heap j).is_canceled ≡ true =
          subst (λ x. (s.heap x).is_canceled ≡ true) ((==_iff i j).0 q) h.1 in
        ground (arith, e, q, g)
    | inr q ↦ ground (arith, e, q)
  ]
]

Canceled-Step : {s t : Service} → Step s t → (i : ℕ) → Canceled s i → Canceled t i
unfolding leave_flight finish_flight cancel_flight
Canceled-Step (arrives request) i h = Canceled-join_flight _ request i h
Canceled-Step (leaves j p) i h = ground arith
Canceled-Step (finishes j outcome n d) i h = ground arith
Canceled-Step (collects j d) i h = h
Canceled-Step (cancels scope repository_id scan_id) i h = ground arith

pub Reach-Canceled : {s t : Service} → Reach s t → (i : ℕ) → Canceled s i → Canceled t i
Reach-Canceled here i h = h
Reach-Canceled (after r st) i h = Canceled-Step st i (Reach-Canceled r i h)

Reach-trans : {s t v : Service} → Reach s t → Reach t v → Reach s v
Reach-trans r here = r
Reach-trans r (after q st) = after (Reach-trans r q) st

-- In a service reached from a fresh one, a flight that is canceled keeps the callers that come to it:
-- after any further steps that do not end it, a call with an equivalent request for its key joins it
-- and opens no other flight, and what it joins is canceled.
pub Reach-later_callers :
    (s t v : Service) (i : ℕ) (request : ExecuteScanRequest)
    → IsFresh s
    → Reach s t
    → Canceled t i
    → Reach t v
    → is_done (v.heap i) ≡ false
    → request_key request ≡ flight_key (v.heap i)
    → requests_equivalent (v.heap i).request request ≡ true
    → ((join_flight v request).result ≡ gives (i, true))
      × ((join_flight v request).service.next ≡ v.next)
      × Canceled (join_flight v request).service i
unfolding join_flight
Reach-later_callers s t v i request fresh r h q d k e =
    let later = Reach-Canceled q i h in
    let inv = Reach-Inv fresh (Reach-trans r q) in
    let listed : v.flights (request_key request) ≡ some i =
      ap v.flights k ∙ (inv.runs i later.0 d).0 in
    (
      rw (join_flight, listed, e) refl,
      rw (join_flight, listed, e) refl,
      Canceled-join_flight v request i later,
    )

-- the outcome of a flight for a caller that started it or joined it
abbrev pub share : Bool → Outcome ScanResult → Outcome ScanResult
share has_joined (fails failure) = fails failure
share false (gives r) = gives r
share true (gives r) = gives (record r { disposition = joined })

-- Callers whose contexts are live share the outcome of a flight that delivers what its request asks for: each gets
-- the same error, or the same scan and artifacts, and for those that joined it the result says so.
pub receive-share :
    (request : ExecuteScanRequest) (outcome : Outcome ScanResult) (has_joined : Bool)
    → delivers request outcome ≡ true
    → is_empty request.scan_id ≡ false
    → receive live_context outcome has_joined ≡ share has_joined outcome
unfolding receive new_scan_result
receive-share request (fails failure) has_joined h e = refl
receive-share request (gives r) false h e = refl
receive-share request (gives r) true h e =
    let same = text_eq_sound r.scan.scan_id request.scan_id (ground (arith, h)) in
    let filled = ap is_empty same ∙ e in ground (arith, filled, h)
