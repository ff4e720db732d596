-- ===== src/App/Progress.antt =====
-- The steps of the shutdown (backend/internal/runtime/app), and its effects on what runs next.
use software_engineering_pla.Shared.{
  ℕ, ◌+◌, ◌≤◌, ◌<◌, ◌≡◌, refl, true, false, arith, length, ◌⊎◌, inl, inr,
}
use software_engineering_pla.App.Work.{
  Runtime, ShutdownResult, Phase, serving, announced, waiting, settled, canceling, closing, done,
  admit, release, request_force,
}
use software_engineering_pla.App.Shutdown.{
  announce, stop_admission, drain_expired, mark_stopping, work_abandoned, finish, drained,
  drain_forced, work_ended, Drain, announces, stops_admission, drains, expires, forces,
  marks_stopping, ends, abandons, finishes, Use, admits, releases, requests_force, observes, begins,
  ends_check, Step, drain, use_by, Reach, here, after,
}
use software_engineering_pla.App.Safety.{length-delete}

-- A run of the goroutine alone, with its number of steps.
pub data Run (r : Runtime) : Runtime → ℕ → Type 0 where
  start : Run r r 0
  more : {s t : Runtime} {n : ℕ} → Run r s n → Drain s t → Run r t (n + 1)

pub steps_left : Phase → ℕ
steps_left serving = 6
steps_left announced = 5
steps_left (waiting _ _) = 4
steps_left (settled _ _ _) = 3
steps_left (canceling _ _ _ _) = 2
steps_left (closing _ _ _) = 1
steps_left (done _) = 0

-- Each step of the goroutine brings it closer to the end, whichever branch it takes.
Drain-steps_left : {r s : Runtime} → Drain r s → steps_left s.phase < steps_left r.phase
unfolding steps_left announce stop_admission drained drain_expired drain_forced mark_stopping
    work_ended work_abandoned finish
Drain-steps_left (announces now p) = ground arith
Drain-steps_left (stops_admission p) = ground arith
Drain-steps_left (drains initial channel p c) = ground arith
Drain-steps_left (expires initial channel p) = ground arith
Drain-steps_left (forces initial channel p f) = ground arith
Drain-steps_left (marks_stopping initial outcome canceled now p) = ground arith
Drain-steps_left (ends initial outcome canceled channel p c) = ground arith
Drain-steps_left (abandons initial outcome canceled channel p) = ground arith
Drain-steps_left (finishes initial outcome canceled true now p) = ground arith
Drain-steps_left (finishes initial outcome canceled false now p) = ground arith

-- Until the goroutine is done it can always take a step: where it waits, its timer is enough.
Drain-enabled :
    (r : Runtime) (p : Phase) → r.phase ≡ p → 0 < steps_left p → (s : Runtime) × Drain r s
unfolding steps_left
Drain-enabled r serving e h = (announce r 0, announces 0 e)
Drain-enabled r announced e h = (stop_admission r, stops_admission e)
Drain-enabled r (waiting initial channel) e h = (drain_expired r initial, expires initial channel e)
Drain-enabled r (settled initial outcome canceled) e h =
    (mark_stopping r initial outcome canceled 0, marks_stopping initial outcome canceled 0 e)
Drain-enabled r (canceling initial outcome canceled channel) e h =
    (work_abandoned r initial canceled, abandons initial outcome canceled channel e)
Drain-enabled r (closing initial outcome canceled) e h =
    (finish r initial outcome canceled true 0, finishes initial outcome canceled true 0 e)
Drain-enabled r (done result) e h = absurd (omega arith)

Run-steps : {r s : Runtime} {n : ℕ} → Run r s n → n + steps_left s.phase ≤ steps_left r.phase
Run-steps start = omega arith
Run-steps (more w d) = omega (arith, Run-steps w, Drain-steps_left d)

steps_left-le : (p : Phase) → steps_left p ≤ 6
unfolding steps_left
steps_left-le p = ground arith

-- Where only the shutdown goroutine takes steps, it takes at most six from any runtime, and after any
-- of them it is done or can take another.
pub shutdown_terminates :
    (r s : Runtime) (n : ℕ)
    → Run r s n
    → (n ≤ 6)
      × (((result : ShutdownResult) × (s.phase ≡ done result)) ⊎ ((t : Runtime) × Drain s t))
shutdown_terminates r s n w = (omega (arith, Run-steps w, steps_left-le r.phase), go s.phase refl)
  where
    go :
        (p : Phase)
        → s.phase ≡ p
        → ((result : ShutdownResult) × (s.phase ≡ done result)) ⊎ ((t : Runtime) × Drain s t)
    go (done result) e = inl (result, e)
    go p e = inr (Drain-enabled s p e (unfold steps_left in omega arith))

Drain-admission :
    {r s : Runtime}
    → Drain r s
    → r.accepting ≡ false
    → (s.accepting ≡ false) × (length s.in_flight ≤ length r.in_flight)
unfolding announce stop_admission drained drain_expired drain_forced mark_stopping work_ended
    work_abandoned finish
Drain-admission (announces now p) h = ground arith
Drain-admission (finishes initial outcome canceled true now p) h = ground arith
Drain-admission (finishes initial outcome canceled false now p) h = ground arith
Drain-admission _ h = ground arith

Use-admission :
    {r s : Runtime}
    → Use r s
    → r.accepting ≡ false
    → (s.accepting ≡ false) × (length s.in_flight ≤ length r.in_flight)
unfolding admit release request_force
Use-admission {r} (admits ctx) h = ground arith
Use-admission {r} (releases id e) h = ground (arith, length-delete id r.in_flight)
Use-admission requests_force h = ground arith
Use-admission (observes now seen) h = ground arith
Use-admission (begins ctx now seen) h = ground arith
Use-admission (ends_check error still now seen) h = ground arith

Step-admission :
    {r s : Runtime}
    → Step r s
    → r.accepting ≡ false
    → (s.accepting ≡ false) × (length s.in_flight ≤ length r.in_flight)
Step-admission (drain d) h = Drain-admission d h
Step-admission (use_by u) h = Use-admission u h

-- Once the drain has stopped admission it stays stopped, whatever runs next, and the work in flight
-- never grows again.
pub admission_closed :
    {r s : Runtime}
    → r.accepting ≡ false
    → Reach r s
    → (s.accepting ≡ false) × (length s.in_flight ≤ length r.in_flight)
admission_closed h here = (h, omega arith)
admission_closed h (after w st) =
    let before = admission_closed h w in
    let last = Step-admission st before.0 in (last.0, omega arith)
