-- ===== src/App/Samples.antt =====
-- A run of the application runtime (backend/internal/runtime/app), and the theorems at it.
use software_engineering_pla.Shared.{◌≤◌, ◌≡◌, ◌≢◌, refl, ◌⊎◌, none, inr, true, [], ◌∷◌, arith}
use software_engineering_pla.Shared.Int.{pos}
use software_engineering_pla.Health.{ready, stopped, ConfigParams, live, transition}
use software_engineering_pla.App.Work.{
  Runtime, ShutdownResult, graceful, work_canceled, done, admit, released, panicked, release, close,
}
use software_engineering_pla.App.Start.{
  Environment, opens, closes, observer, service, postgres_opened, postgres_nil, started, start,
  initial_runtime,
}
use software_engineering_pla.App.Startup.{
  IsSettled, start-IsSettled, start_succeeds, serving_monitor, config_of, monitor_of,
  initial_runtime-Inv,
}
use software_engineering_pla.App.Shutdown.{
  Drain, announces, stops_admission, drains, expires, marks_stopping, finishes, admits, releases,
  drain, use_by, Reach, here, after, announce, stop_admission, drained, drain_expired,
  mark_stopping, finish,
}
use software_engineering_pla.App.Safety.{
  Inv, Reach-Inv, release_returns, release_never_panics, shutdown_complete,
}
use software_engineering_pla.App.Progress.{Run, start as run_start, more, shutdown_terminates}

abbrev params : ConfigParams
params = record {
  check_timeout = pos 1000000;
  check_interval = pos 5000000;
  failure_threshold = pos 3;
}

abbrev environment : Environment
environment = record {
  ctx = live;
  load_error = none;
  observability = service none;
  postgres = postgres_opened;
  health_params = params;
  now = 1000;
}

start-IsSettled_example : IsSettled environment (start environment)
start-IsSettled_example = start-IsSettled environment

start_succeeds_example :
    (r : Runtime) × ((start environment).outcome ≡ started r)
    × (r.health.state ≡ ready)
    × (r.health.last_database_success ≡ 1000)
start_succeeds_example =
    start_succeeds environment 1000000 5000000 3 refl refl refl (inr refl) (record {
      timeout_is = refl;
      interval_is = refl;
      threshold_is = refl;
      timeout_bounds = omega arith;
      interval_bounds = omega arith;
      threshold_bounds = omega arith;
    })

-- the observer was opened, and is closed again when PostgreSQL cannot be
leaks_nothing :
    (start (record environment { postgres = postgres_nil })).log
    ≡ opens observer ∷ closes observer ∷ []
unfolding start
leaks_nothing = refl

abbrev idle : Runtime
idle = initial_runtime (serving_monitor (monitor_of (config_of 1000000 5000000 3)) 1000)

-- a piece of work is admitted, the drain begins, the work ends, and the shutdown is graceful
abbrev busy : Runtime
busy = (admit idle live).0

abbrev closed_door : Runtime
closed_door = stop_admission (announce busy 2000)

abbrev emptied : Runtime
emptied = record closed_door {
  in_flight = [];
  contexts_canceled = 1 ∷ [];
  closed = close closed_door.closed closed_door.zero_work;
}

abbrev last : Runtime
last = finish (mark_stopping (drained emptied 1) 1 graceful 0 3000) 1 graceful 0 true 4000

abbrev outcome : ShutdownResult
outcome = record {
  outcome = graceful;
  initial_in_flight = 1;
  canceled_work = 0;
  resources_closed = true;
}

to_closed_door : Reach idle closed_door
unfolding announce stop_admission admit
to_closed_door =
    after (after (after here (use_by (admits live))) (drain (announces 2000 refl)))
      (drain (stops_admission refl))

last_release : release closed_door 1 ≡ released emptied
unfolding announce stop_admission admit release
last_release = refl

to_last : Reach closed_door last
unfolding announce stop_admission admit release drained mark_stopping finish transition
to_last =
    after
      (after (after (after here (use_by (releases 1 last_release))) (drain (drains 1 1 refl refl)))
        (drain (marks_stopping 1 graceful 0 3000 refl)))
      (drain (finishes 1 graceful 0 true 4000 refl))

idle-Inv : Inv idle
idle-Inv = initial_runtime-Inv _ refl

closed_door-Inv : Inv closed_door
closed_door-Inv = Reach-Inv idle-Inv to_closed_door

last_phase : last.phase ≡ done outcome
unfolding finish
last_phase = refl

release_returns_example : (s : Runtime) × (release closed_door 1 ≡ released s) × Inv s
release_returns_example = release_returns closed_door 1 closed_door-Inv

release_never_panics_example : release closed_door 1 ≢ panicked
release_never_panics_example = release_never_panics idle closed_door 1 idle-Inv to_closed_door

shutdown_complete_example :
    (last.in_flight ≡ [])
    × (outcome.resources_closed ≡ true)
    × (last.health.state ≡ stopped)
    × ((outcome.outcome ≡ work_canceled) ⊎ (outcome.canceled_work ≡ 0))
shutdown_complete_example =
    shutdown_complete closed_door last outcome closed_door-Inv to_last last_phase (λ e. cc)

abbrev expired : Runtime
expired = drain_expired (stop_admission (announce idle 2000)) 0

alone : Run idle expired 3
unfolding announce stop_admission
alone = more (more (more run_start (announces 2000 refl)) (stops_admission refl)) (expires 0 0 refl)

shutdown_terminates_example :
    (3 ≤ 6)
    × (((result : ShutdownResult) × (expired.phase ≡ done result))
        ⊎ ((t : Runtime) × Drain expired t))
shutdown_terminates_example = shutdown_terminates idle expired 3 alone
