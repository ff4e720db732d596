-- ===== src/App/Shutdown.antt =====
-- The goroutine of `runShutdown` (backend/internal/runtime/app), one function for each stretch that
-- runs without waiting or under one lock, and the steps of the whole runtime.
--
-- A `select` may take any branch that is ready, and a timer may fire at any time, so the branches
-- are separate steps. Health checks by other goroutines are steps of the monitor.
use software_engineering_pla.Shared.{ℕ, ◌≡◌, Bool, true, false, Option, ◌==◌, if◌then◌else◌, length}
use software_engineering_pla.Health.{
  draining, stopping, stopped, ContextView, CheckError, transition, snapshot, readiness_begin,
  readiness_end,
}
use software_engineering_pla.App.Work.{
  Runtime, ShutdownOutcome, graceful, work_canceled, forced, serving, announced, waiting, settled,
  canceling, closing, done, admit, released, release, cancel_work, request_force,
}

-- `shutdownOnce.Do`, up to the lock; the error of `Transition` is discarded
unfoldable pub announce : Runtime → ℕ → Runtime
announce r now = record r { health = (transition r.health draining now).0; phase = announced }

unfoldable pub stop_admission : Runtime → Runtime
stop_admission r = record r { accepting = false; phase = waiting (length r.in_flight) r.zero_work }

-- the three branches of the first `select`
unfoldable pub drained : Runtime → ℕ → Runtime
drained r initial = record r { phase = settled initial graceful 0 }

unfoldable pub drain_expired : Runtime → ℕ → Runtime
unfolding cancel_work
drain_expired r initial =
    let (s, canceled) = cancel_work r in record s { phase = settled initial work_canceled canceled }

unfoldable pub drain_forced : Runtime → ℕ → Runtime
unfolding cancel_work
drain_forced r initial =
    let (s, canceled) = cancel_work r in record s { phase = settled initial forced canceled }

-- `Transition(StateStopping)`, and the second `select` only if work was canceled
unfoldable pub mark_stopping : Runtime → ℕ → ShutdownOutcome → ℕ → ℕ → Runtime
mark_stopping r initial outcome canceled now = record r {
  health = (transition r.health stopping now).0;
  phase =
      if canceled == 0
      then closing initial outcome canceled
      else canceling initial outcome canceled r.zero_work;
}

unfoldable pub work_ended : Runtime → ℕ → ShutdownOutcome → ℕ → Runtime
work_ended r initial outcome canceled = record r { phase = closing initial outcome canceled }

unfoldable pub work_abandoned : Runtime → ℕ → ℕ → Runtime
work_abandoned r initial canceled = record r { phase = closing initial forced canceled }

-- `closeResources` returned `resources_closed`
unfoldable pub finish : Runtime → ℕ → ShutdownOutcome → ℕ → Bool → ℕ → Runtime
finish r initial outcome canceled true now = record r {
  health = (transition r.health stopped now).0;
  phase = done (record {
    outcome = outcome;
    initial_in_flight = initial;
    canceled_work = canceled;
    resources_closed = true;
  });
}
finish r initial outcome canceled false now = record r {
  phase = done (record {
    outcome = forced;
    initial_in_flight = initial;
    canceled_work = canceled;
    resources_closed = false;
  });
}

-- the goroutine's steps
pub data Drain (r : Runtime) : Runtime → Type 0 where
  announces : (now : ℕ) → r.phase ≡ serving → Drain r (announce r now)
  stops_admission : r.phase ≡ announced → Drain r (stop_admission r)
  drains :
      (initial channel : ℕ)
      → r.phase ≡ waiting initial channel
      → r.closed channel ≡ true
      → Drain r (drained r initial)
  expires :
      (initial channel : ℕ) → r.phase ≡ waiting initial channel → Drain r (drain_expired r initial)
  forces :
      (initial channel : ℕ)
      → r.phase ≡ waiting initial channel
      → r.force ≡ true
      → Drain r (drain_forced r initial)
  marks_stopping :
      (initial : ℕ) (outcome : ShutdownOutcome) (canceled now : ℕ)
      → r.phase ≡ settled initial outcome canceled
      → Drain r (mark_stopping r initial outcome canceled now)
  ends :
      (initial : ℕ) (outcome : ShutdownOutcome) (canceled channel : ℕ)
      → r.phase ≡ canceling initial outcome canceled channel
      → r.closed channel ≡ true
      → Drain r (work_ended r initial outcome canceled)
  abandons :
      (initial : ℕ) (outcome : ShutdownOutcome) (canceled channel : ℕ)
      → r.phase ≡ canceling initial outcome canceled channel
      → Drain r (work_abandoned r initial canceled)
  finishes :
      (initial : ℕ) (outcome : ShutdownOutcome) (canceled : ℕ) (resources_closed : Bool) (now : ℕ)
      → r.phase ≡ closing initial outcome canceled
      → Drain r (finish r initial outcome canceled resources_closed now)

-- what the rest of the process does to the runtime
pub data Use (r : Runtime) : Runtime → Type 0 where
  admits : (ctx : ContextView) → Use r (admit r ctx).0
  releases : (id : ℕ) {s : Runtime} → release r id ≡ released s → Use r s
  requests_force : Use r (request_force r)
  observes : (now seen : ℕ) → Use r (record r { health = (snapshot r.health now seen).0 })
  begins :
      (ctx : ContextView) (now seen : ℕ)
      → Use r (record r { health = (readiness_begin r.health ctx now seen).0 })
  ends_check :
      (error : Option CheckError) (still : ContextView) (now seen : ℕ)
      → Use r (record r { health = (readiness_end r.health error still now seen).0 })

pub data Step (r s : Runtime) : Type 0 where
  drain : Drain r s → Step r s
  use_by : Use r s → Step r s

pub data Reach (r : Runtime) : Runtime → Type 0 where
  here : Reach r r
  after : {s t : Runtime} → Reach r s → Step s t → Reach r t
