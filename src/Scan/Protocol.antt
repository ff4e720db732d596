-- ===== src/Scan/Protocol.antt =====
-- The protocol of one flight with its lease, its session and the store, as an automaton on the events
-- of `execute` (backend/service/repository/scan/implementation.go).
--
-- A session is prepared under a lease, a scan begins in a session where the store answers so, and a
-- scan that has begun is published or finalized; a publication that failed is reconciled. `broken` is
-- where any other event leads, `refused` where the store has not begun the scan.
use software_engineering_pla.Shared.{
  ◌≡◌, refl, inl, inr, Bool, true, false, if◌then◌else◌, List, [], ◌∷◌, ◌++◌, arith,
}
use software_engineering_pla.Die.Text.{Text}
use software_engineering_pla.Repo.Errors.{Failure, Outcome, fails, gives}
use software_engineering_pla.Repo.Valid.{Unicode}
use software_engineering_pla.Repo.Values.{Scan, ScanResult, ExecuteScanRequest}
use software_engineering_pla.Scan.Errors.{ContextState}
use software_engineering_pla.Scan.Model.{
  Config, BeginStatus, begin_started, BeginResult, new_analysis_request, PublicationArtifact,
}
use software_engineering_pla.Scan.Execute.Cases.{
  run_started-cases, Outcome-cases, SessionAnswer-cases,
}
use software_engineering_pla.Repo.Contract.{new_scan}
use software_engineering_pla.Scan.Execute.{
  World, LeaseAnswer, lease_error, nil_lease, lease_without_context, leased, Session, running_scan,
  begin_command, Event, acquires, prepares, begins, publishes, finalizes, reconciles, closes,
  releases, fail_running, reconcile_publication, run_started, run_begun, run_session, run_leased,
  execute,
}

pub data Phase : Type 0 where
  idle held prepared refused begun unanswered settled closed over broken : Phase

abbrev is_started : BeginStatus → Bool
is_started begin_started = true
is_started _ = false

-- whether the store has begun the scan
abbrev pub has_begun : Outcome BeginResult → Bool
has_begun (fails f) = false
has_begun (gives b) = is_started b.status

-- whether the store has answered a publication
abbrev pub has_answered : Outcome ScanResult → Bool
has_answered (fails f) = false
has_answered (gives r) = true

abbrev pub next_phase : World → Phase → Event → Phase
next_phase w idle acquires = held
next_phase w held prepares = prepared
next_phase w held releases = over
next_phase w prepared (begins c) = if has_begun (w.begin c) then begun else refused
next_phase w prepared closes = closed
next_phase w begun (publishes c) = if has_answered (w.publish c) then settled else unanswered
next_phase w begun (finalizes c) = settled
next_phase w begun closes = closed
next_phase w unanswered reconciles = settled
next_phase w refused closes = closed
next_phase w settled closes = closed
next_phase w closed releases = over
next_phase w _ _ = broken

abbrev pub phase_after : World → Phase → List Event → Phase
phase_after w p [] = p
phase_after w p (e ∷ log) = phase_after w (next_phase w p e) log

abbrev is_over : Phase → Bool
is_over over = true
is_over _ = false

-- nothing has happened, or all that was begun is over
abbrev pub accepts : World → List Event → Bool
accepts w [] = true
accepts w (e ∷ log) = is_over (phase_after w idle (e ∷ log))

-- a session is open, and a publication that failed has been reconciled
abbrev pub in_session : Phase → Bool
in_session prepared = true
in_session begun = true
in_session refused = true
in_session settled = true
in_session _ = false

-- a lease is held and no session is open
abbrev is_held : Phase → Bool
is_held held = true
is_held closed = true
is_held _ = false

-- a scan has begun, and a publication that failed has been reconciled
abbrev is_begun : Phase → Bool
is_begun begun = true
is_begun settled = true
is_begun _ = false

phase_after-append :
    (w : World) (p : Phase) (log : List Event) (e : Event)
    → phase_after w p (log ++ e ∷ []) ≡ next_phase w (phase_after w p log) e
phase_after-append w p [] e = refl
phase_after-append w p (x ∷ log) e = phase_after-append w (next_phase w p x) log e

closes_lem : (w : World) (p : Phase) → in_session p ≡ true → next_phase w p closes ≡ closed
closes_lem w p h = ground arith

releases_lem : (w : World) (p : Phase) → is_held p ≡ true → next_phase w p releases ≡ over
releases_lem w p h = ground arith

is_begun-in_session : (p : Phase) → is_begun p ≡ true → in_session p ≡ true
is_begun-in_session p h = ground arith

module _ (u : Unicode) (w : World) (request : ExecuteScanRequest) where
  fail_running-phase :
      (current : Scan) (cause : Failure) (reason : Text)
      → is_begun (phase_after w begun (fail_running u w request current cause reason).log) ≡ true
  unfolding fail_running
  fail_running-phase current cause reason = ground arith

  reconcile_publication-phase :
      (expected : Scan) (publication : List PublicationArtifact)
      → is_begun
          (phase_after w unanswered (reconcile_publication u w request expected publication).log)
        ≡ true
  unfolding reconcile_publication
  reconcile_publication-phase expected publication = ground arith

  module _ (sha256 hex : Text → Text) (c : Config) where
    run_started-phase :
        (session : Session) (current : Scan)
        → is_begun (phase_after w begun (run_started u w request sha256 hex c session current).log)
          ≡ true
    run_started-phase session current =
        run_started-cases u w request sha256 hex c
          (λ r. is_begun (phase_after w begun r.log) ≡ true) session current
          (λ cause reason v. fail_running-phase current cause reason)
          (λ analysis scan publication k h.
            ground (arith, reconcile_publication-phase scan publication))

    run_begun-phase :
        (session : Session) (b : BeginResult)
        → in_session (
            phase_after w
              (if has_begun (gives b) then begun else refused)
              (run_begun u w request sha256 hex c session b).log)
          ≡ true
    unfolding run_begun
    run_begun-phase session b = ground (
      arith,
      run_started-phase session b.scan,
      is_begun-in_session
          (phase_after w begun (run_started u w request sha256 hex c session b.scan).log),
    )

    run_session-phase :
        (session : Session)
        → in_session (phase_after w prepared (run_session u w request sha256 hex c session).log)
          ≡ true
    unfolding run_session
    run_session-phase session =
        elim (Outcome-cases (new_scan u (running_scan u w request sha256 hex c session))) [
          | inl (f, e) ↦ ground (arith, e)
          | inr (current, e) ↦
              elim (Outcome-cases
                (w.begin (begin_command u w request sha256 hex c session current))) [
                  | inl (f, h) ↦ ground (arith, e, h)
                  | inr (b, h) ↦ ground (arith, e, h, run_begun-phase session b)
                ]
        ]

    run_leased-phase :
        (lease : ContextState)
        → is_held (phase_after w held (run_leased u w request sha256 hex c lease).log) ≡ true
    unfolding run_leased
    run_leased-phase lease = elim (SessionAnswer-cases (w.prepare (new_analysis_request request))) [
      | inl (inl (f, h)) ↦ ground (arith, h)
      | inl (inr h) ↦ ground (arith, h)
      | inr (session, h) ↦
          let log = (run_session u w request sha256 hex c session).log in
          ground (
            arith,
            h,
            phase_after-append w prepared log closes,
            closes_lem w (phase_after w prepared log) (run_session-phase session),
          )
    ]

    -- Whatever a flight meets, its events are accepted by the protocol: nothing happens, or a lease is
    -- acquired, and released last; a session is prepared under it at most once, and closed; the store is
    -- asked to begin a scan in the session at most once; only where it answers that it has started the
    -- scan is anything published or finalized, never both and at most once; and only a publication whose
    -- answer is an error is reconciled, and then always and once.
    pub execute-accepts : accepts w (execute u w request sha256 hex c).log ≡ true
    unfolding execute
    execute-accepts = go w.acquire refl
      where
        go :
            (a : LeaseAnswer)
            → w.acquire ≡ a
            → accepts w (execute u w request sha256 hex c).log ≡ true
        go (lease_error f) h = ground (arith, h)
        go nil_lease h = ground (arith, h)
        go lease_without_context h = ground (arith, h)
        go (leased lease) h =
            let log = (run_leased u w request sha256 hex c lease).log in
            ground (
              arith,
              h,
              phase_after-append w held log releases,
              releases_lem w (phase_after w held log) (run_leased-phase lease),
            )
