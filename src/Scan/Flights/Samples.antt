-- ===== src/Scan/Flights/Samples.antt =====
-- Runs of callers and flights (backend/service/repository/scan/implementation.go: `ExecuteScan`, `joinFlight`,
-- `leaveFlight`), and the theorems at them.
use software_engineering_pla.Shared.{zero, ◌≡◌, refl, true, false, [], none, arith}
use software_engineering_pla.Die.Text.{text}
use software_engineering_pla.Repo.Errors.{Outcome, fails, gives, is_canceled as canceled_cause}
use software_engineering_pla.Repo.Values.{ScanResult, succeeded, created}
use software_engineering_pla.Scan.Errors.{live_context, context_ended}
use software_engineering_pla.Scan.Publication.{scan_key, requests_equivalent}
use software_engineering_pla.Scan.Samples.{request, started_scan}
use software_engineering_pla.Scan.Flights.{
  Service, Flight, join_flight, leave_flight, receive, here, after, arrives, leaves,
}
use software_engineering_pla.Scan.Flights.Invariant.{Running}
use software_engineering_pla.Scan.Flights.Single.{IsFresh, Reach-one_flight}
use software_engineering_pla.Scan.Flights.Sharing.{
  Canceled, Reach-later_callers, share, receive-share,
}

abbrev no_flight : Flight
no_flight = record { request = request; is_canceled = false; interested = 0; outcome = none }

abbrev fresh : Service
fresh = record { next = 0; heap = λ _. no_flight; flights = λ _. none; callers = [] }

abbrev one_caller : Service
one_caller = (join_flight fresh request).service

fresh-IsFresh : IsFresh fresh
fresh-IsFresh = (refl, (λ k. refl), refl)

Reach-one_flight_example : ((zero ≡ zero) × Running one_caller 0)
unfolding join_flight
Reach-one_flight_example =
    Reach-one_flight fresh one_caller fresh-IsFresh (after here (arrives request)) 0 0 (omega arith)
      (omega arith) refl refl refl

-- the only caller has left
abbrev deserted : Service
deserted = leave_flight one_caller 0

deserted_flight : Canceled deserted 0
unfolding join_flight leave_flight
deserted_flight = (omega arith, refl)

-- a caller whose context is live joins the flight that no caller waits for
latecomer : (join_flight deserted request).result ≡ gives (0, true)
unfolding join_flight leave_flight requests_equivalent scan_key
latecomer = refl

Reach-later_callers_example :
    ((join_flight deserted request).result ≡ gives (0, true))
    × ((join_flight deserted request).service.next ≡ 1)
    × Canceled (join_flight deserted request).service 0
unfolding join_flight leave_flight requests_equivalent scan_key
Reach-later_callers_example =
    Reach-later_callers fresh deserted deserted 0 request fresh-IsFresh
      (after (after here (arrives request)) (leaves 0 (omega arith))) deserted_flight here refl refl
      refl

abbrev canceled_run : Outcome ScanResult
canceled_run = fails (context_ended (text "execute-scan") canceled_cause)

-- it gets the error of the canceled run
latecomer_canceled : receive live_context canceled_run true ≡ canceled_run
unfolding receive
latecomer_canceled = refl

abbrev published : Outcome ScanResult
published = gives (record {
  scan = record started_scan { state = succeeded };
  artifacts = [];
  disposition = created;
})

receive-share_example : receive live_context published true ≡ share true published
receive-share_example = receive-share request published true refl refl
