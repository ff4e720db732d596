-- ===== src/Scan/Flights.antt =====
-- Callers that share a flight (backend/service/repository/scan/implementation.go: `ExecuteScan`,
-- `joinFlight`, `leaveFlight`, `runFlight`, `cancelFlight`).
--
-- A flight is a number below `next`, and `heap` has its fields. `callers` are the callers that wait, each by its
-- flight. What holds the lock is one step.
pub mod Invariant
pub mod Single
pub mod Sharing
mod Samples
use software_engineering_pla.Shared.{
  ℕ, zero, suc, ◌+◌, ◌-◌, ◌<◌, ◌≡◌, refl, Bool, true, false, not, ◌&&◌, ◌||◌, List, [], ◌∷◌, Option,
  none, some, ◌==◌, if◌then◌else◌,
}
use software_engineering_pla.Die.Text.{Text, text, text_eq}
use software_engineering_pla.Repo.Errors.{
  ErrorKind, scan_already_running, idempotency_conflict, no_cause, Failure, Outcome, fails, gives,
}
use software_engineering_pla.Repo.Values.{Scope, ExecuteScanRequest, ScanResult, joined}
use software_engineering_pla.Repo.Contract.{new_scan_result}
use software_engineering_pla.Scan.Errors.{
  ContextState, context_error, context_ended, service_failure,
}
use software_engineering_pla.Scan.Publication.{scan_key, requests_equivalent}

-- `flight`; `outcome` is there when `done` is closed
pub record Flight : Type 0 where
  pub request : ExecuteScanRequest
  pub is_canceled : Bool
  pub interested : ℕ
  pub outcome : Option (Outcome ScanResult)

-- the fields `flights` of `Service`, and what it points to
pub record Service : Type 0 where
  pub next : ℕ
  pub heap : ℕ → Flight
  pub flights : Text → Option ℕ
  pub callers : List ℕ

abbrev pub request_key : ExecuteScanRequest → Text
request_key r = scan_key r.scope r.repository_id r.scan_id

abbrev pub flight_key : Flight → Text
flight_key f = request_key f.request

abbrev pub is_done : Flight → Bool
is_done f = elim f.outcome [ some _ ↦ true | none ↦ false ]

abbrev pub set_flight : (ℕ → Flight) → ℕ → Flight → ℕ → Flight
set_flight heap i f j = if j == i then f else heap j

abbrev pub set_key : (Text → Option ℕ) → Text → Option ℕ → Text → Option ℕ
set_key flights key v k = if text_eq k key then v else flights k

abbrev pub remove_caller : ℕ → List ℕ → List ℕ
remove_caller i [] = []
remove_caller i (j ∷ callers) =
    let rest = remove_caller i callers in if j == i then callers else j ∷ rest

-- a caller's flight and whether it joined it, or why it has none
pub record Joined : Type 0 where
  pub service : Service
  pub result : Outcome (ℕ × Bool)

unfoldable pub join_flight : Service → ExecuteScanRequest → Joined
join_flight s request = elim (s.flights (request_key request)) [
  | some i ↦
      let existing = s.heap i in
      if requests_equivalent existing.request request
      then record {
        service = record s {
          heap = set_flight s.heap i (record existing { interested = existing.interested + 1 });
          callers = i ∷ s.callers;
        };
        result = gives (i, true);
      }
      else record {
        service = s;
        result = fails (
            service_failure
              (if text_eq existing.request.request_id request.request_id
                then idempotency_conflict
                else scan_already_running)
              (text "execute-scan") (text "conflicting-flight") false no_cause);
      }
  | none ↦ record {
    service = record {
      next = s.next + 1;
      heap =
          set_flight s.heap s.next
            (record { request = request; is_canceled = false; interested = 1; outcome = none });
      flights = set_key s.flights (request_key request) (some s.next);
      callers = s.next ∷ s.callers;
    };
    result = gives (s.next, false);
  }
]

-- a caller of the flight whose context ends
unfoldable pub leave_flight : Service → ℕ → Service
leave_flight s i =
    let current = s.heap i in
    let left = current.interested - 1 in
    if is_done current then record s { callers = remove_caller i s.callers } else record s {
      heap =
          set_flight s.heap i
            (record current { interested = left; is_canceled = current.is_canceled || left == 0 });
      callers = remove_caller i s.callers;
    }

-- the end of `runFlight`
unfoldable pub finish_flight : Service → ℕ → Outcome ScanResult → Service
finish_flight s i outcome = record s {
  heap = set_flight s.heap i (record (s.heap i) { outcome = some outcome; is_canceled = true });
  flights = set_key s.flights (flight_key (s.heap i)) none;
}

unfoldable pub cancel_flight : Service → Scope → Text → Text → Service
cancel_flight s scope repository_id scan_id =
    elim (s.flights (scan_key scope repository_id scan_id)) [
      | some i ↦ record s { heap = set_flight s.heap i (record (s.heap i) { is_canceled = true }) }
      | none ↦ s
    ]

-- what a caller returns once its flight is done
unfoldable pub receive : ContextState → Outcome ScanResult → Bool → Outcome ScanResult
receive context outcome has_joined = elim (context_error context) [
  | some cause ↦ fails (context_ended (text "execute-scan") cause)
  | none ↦ elim outcome [
    | fails failure ↦ fails failure
    | gives r ↦ if has_joined then new_scan_result r.scan r.artifacts joined else gives r
  ]
]

abbrev pub count : ℕ → List ℕ → ℕ
count i [] = 0
count i (j ∷ callers) = let rest = count i callers in if j == i then suc rest else rest

-- A step of the callers, of the flights, or of `CancelScan`.
pub data Step (s : Service) : Service → Type 0 where
  arrives : (request : ExecuteScanRequest) → Step s (join_flight s request).service
  leaves : (i : ℕ) → 0 < count i s.callers → Step s (leave_flight s i)
  finishes :
      (i : ℕ) (outcome : Outcome ScanResult)
      → i < s.next
      → is_done (s.heap i) ≡ false
      → Step s (finish_flight s i outcome)
  collects :
      (i : ℕ)
      → is_done (s.heap i) ≡ true
      → Step s (record s { callers = remove_caller i s.callers })
  cancels :
      (scope : Scope) (repository_id scan_id : Text)
      → Step s (cancel_flight s scope repository_id scan_id)

pub data Reach (s : Service) : Service → Type 0 where
  here : Reach s s
  after : {t v : Service} → Reach s t → Step t v → Reach s v
