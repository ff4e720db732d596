-- ===== src/App/Start.antt =====
-- Startup (backend/internal/runtime/app, `Start`).
--
-- The loader, the observability factory and the PostgreSQL opener are outside the package: what
-- they return is an argument.
use software_engineering_pla.Shared.{
  ℕ, Bool, true, false, List, [], ◌∷◌, ◌++◌, if◌then◌else◌, Option, none, some, ◌==◌,
}
use software_engineering_pla.Health.{
  RuntimeState, loading, validating, connecting, compatibility_checking, ready, ConfigParams,
  Monitor, ContextView, nil_context, live, ended, expired, ok, err, new_config, new_monitor,
  transition,
}
use software_engineering_pla.App.Work.{
  ErrorCode, Cause, is_canceled, is_deadline_exceeded, new_error, invalid_input, canceled, startup,
  internal, Runtime, serving,
}

-- `none_configured` is a nil factory; `open_failed` an error or a nil service
pub data Observability : Type 0 where
  none_configured : Observability
  open_failed : Cause → Observability
  -- a service, with the error of its `Start`, if any
  service : Option Cause → Observability

pub data Postgres : Type 0 where
  postgres_failed : Cause → Postgres
  postgres_nil postgres_opened : Postgres

pub record Environment : Type 0 where
  pub ctx : ContextView
  -- the error of the configuration loader, if any
  pub load_error : Option Cause
  pub observability : Observability
  pub postgres : Postgres
  pub health_params : ConfigParams
  -- the clock when the monitor becomes ready
  pub now : ℕ

pub data Outcome : Type 0 where
  started : Runtime → Outcome
  failed_with : ErrorCode → Outcome

pub data Resource : Type 0 where
  observer postgres_runtime : Resource

pub data ResourceEvent : Type 0 where
  opens closes : Resource → ResourceEvent

-- A return of `Start`: the outcome, what `observerOwned` and `cleanup` are then, and the calls that
-- open and close resources, in their order. A flag that is not declared yet is `false`.
pub record Startup : Type 0 where
  pub outcome : Outcome
  pub observer_owned : Bool
  pub cleanup : Bool
  pub log : List ResourceEvent

-- the loop of transitions; `none` is a refused one
unfoldable pub transition_all : Monitor → List RuntimeState → ℕ → Option Monitor
unfolding transition
transition_all m [] now = some m
transition_all m (s ∷ states) now =
    let (m', error) = transition m s now in
    let rest = transition_all m' states now in elim error [ some _ ↦ none | none ↦ rest ]

abbrev pub startup_states : List RuntimeState
startup_states = loading ∷ validating ∷ connecting ∷ compatibility_checking ∷ ready ∷ []

-- the `Runtime` literal: its first channel, 0, is closed
abbrev pub initial_runtime : Monitor → Runtime
initial_runtime m = record {
  health = m;
  accepting = true;
  next_work_id = 0;
  in_flight = [];
  contexts_canceled = [];
  zero_work = 0;
  closed = λ c. c == 0;
  next_channel = 1;
  force = false;
  phase = serving;
}

-- From the health configuration on: the error of the first step that fails, or the runtime.
unfoldable pub build : Environment → Outcome
unfolding transition_all new_config new_monitor
build env = elim (new_config env.health_params) [
  | err _ ↦ failed_with startup
  | ok config ↦ elim (new_monitor true config) [
    | err _ ↦ failed_with startup
    | ok monitor ↦ elim (transition_all monitor startup_states env.now) [
      | none ↦ failed_with internal
      | some m ↦ started (initial_runtime m)
    ]
  ]
]

unfoldable pub start_observer : Observability → Outcome → Outcome
start_observer (service (some cause)) (started r) = failed_with (new_error startup cause)
start_observer _ outcome = outcome

abbrev pub start_failed : ErrorCode → Startup
start_failed e = record {
  outcome = failed_with e;
  observer_owned = false;
  cleanup = false;
  log = [];
}

abbrev pub with_event : ResourceEvent → Startup → Startup
with_event e s = record s { log = e ∷ s.log }

-- the deferred functions, each of which reads its flag
unfoldable pub close_observer : Startup → Startup
close_observer s = if s.observer_owned then record s { log = s.log ++ closes observer ∷ [] } else s

unfoldable pub close_postgres : Startup → Startup
close_postgres s = if s.cleanup then record s { log = s.log ++ closes postgres_runtime ∷ [] } else s

-- the flags are reset at the end, where the runtime is returned
abbrev pub returned : Bool → Outcome → Startup
returned owned (started r) = record {
  outcome = started r;
  observer_owned = false;
  cleanup = false;
  log = [];
}
returned owned (failed_with e) = record (start_failed e) { observer_owned = owned; cleanup = true }

unfoldable pub open_postgres : Environment → Bool → Postgres → Startup
unfolding build start_observer close_postgres
open_postgres env owned (postgres_failed cause) = record (start_failed (new_error startup cause)) {
  observer_owned = owned;
}
open_postgres env owned postgres_nil = record (start_failed startup) { observer_owned = owned }
open_postgres env owned postgres_opened =
    with_event (opens postgres_runtime)
      (close_postgres (returned owned (start_observer env.observability (build env))))

unfoldable pub open_observability : Environment → Observability → Startup
unfolding open_postgres close_observer
open_observability env (open_failed cause) = start_failed (new_error startup cause)
open_observability env none_configured = close_observer (open_postgres env false env.postgres)
open_observability env (service _) =
    with_event (opens observer) (close_observer (open_postgres env true env.postgres))

unfoldable pub load : Environment → Option Cause → Startup
unfolding open_observability
load env (some cause) = start_failed (new_error startup cause)
load env none = open_observability env env.observability

unfoldable pub start : Environment → Startup
unfolding load
start env = elim env.ctx [
  | nil_context ↦ start_failed invalid_input
  | ended ↦ start_failed (new_error canceled is_canceled)
  | expired ↦ start_failed (new_error canceled is_deadline_exceeded)
  | live ↦ load env env.load_error
]
