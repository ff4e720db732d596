-- ===== src/App/Startup.antt =====
-- The outcomes of startup (backend/internal/runtime/app, `Start`).
use software_engineering_pla.Shared.{
  ℕ, suc, ◌*◌, ◌≤◌, ◌<◌, ◌≡◌, refl, sym, subst, ap, ◌∙◌, ◌⊎◌, inl, inr, Bool, true, false, ◌&&◌,
  List, [], ◌∷◌, ◌++◌, Option, none, some, if◌then◌else◌, arith,
}
use software_engineering_pla.Shared.Int.{pos}
use software_engineering_pla.Health.{
  new, ready, ConfigParams, Config, healthy, runtime_ready, unknown, runtime_starting, millisecond,
  minute, signal, Monitor, ContextView, nil_context, live, ended, expired, ok, new_config,
  new_monitor, Result-cases,
}
use software_engineering_pla.App.Work.{
  ErrorCode, Cause, is_canceled, is_deadline_exceeded, new_error, invalid_input, canceled, startup,
  Runtime,
}
use software_engineering_pla.App.Start.{
  Observability, Postgres, Startup, open_postgres, open_observability, load, none_configured,
  open_failed, service, postgres_failed, postgres_nil, postgres_opened, Environment, started,
  failed_with, Outcome, Resource, observer, postgres_runtime, ResourceEvent, opens, closes,
  start_failed, with_event, close_observer, close_postgres, transition_all, startup_states,
  initial_runtime, build, start_observer, start,
}
use software_engineering_pla.App.Safety.{Inv}

-- the monitor after the five transitions of startup
abbrev pub serving_monitor : Monitor → ℕ → Monitor
serving_monitor m now = record m {
  state = ready;
  readiness = signal healthy runtime_ready;
  last_database_success = now;
  last_compatibility_success = now;
  consecutive_failures = 0;
}

transition_all-serving :
    (m : Monitor) (now : ℕ)
    → m.state ≡ new
    → transition_all m startup_states now ≡ some (serving_monitor m now)
unfolding transition_all
transition_all-serving m now e = ground arith

new_monitor-new : (c : Config) (m : Monitor) → new_monitor true c ≡ ok m → m.state ≡ new
unfolding new_monitor
new_monitor-new c m h = ground arith

pub initial_runtime-Inv : (m : Monitor) → m.state ≡ ready → Inv (initial_runtime m)
initial_runtime-Inv m e = record {
  idle = refl;
  fresh = λ c le. ground arith;
  allocated = omega arith;
  phase_state = e;
  phase_accepting = refl;
  remembers = tt;
}

build_started :
    (env : Environment) (c : Config) (m : Monitor)
    → new_config env.health_params ≡ ok c
    → new_monitor true c ≡ ok m
    → build env ≡ started (initial_runtime (serving_monitor m env.now))
unfolding build
build_started env c m p q =
    let all = transition_all-serving m env.now (new_monitor-new c m q) in ground arith

-- A runtime that is in order: ready, accepting, and within the invariant of its later life.
pub record IsReady (r : Runtime) : Type 0 where
  pub inv : Inv r
  pub state : r.health.state ≡ ready
  pub accepting : r.accepting ≡ true

build-cases :
    (env : Environment)
    → ((r : Runtime) × (build env ≡ started r) × IsReady r)
      ⊎ ((e : ErrorCode) × (build env ≡ failed_with e))
build-cases env = elim (Result-cases (new_config env.health_params)) [
  | inr (e, p) ↦ inr (startup, unfold build in ground arith)
  | inl (c, p) ↦ elim (Result-cases (new_monitor true c)) [
    | inr (e, q) ↦ inr (startup, unfold build in ground arith)
    | inl (m, q) ↦ inl (
      initial_runtime (serving_monitor m env.now),
      build_started env c m p q,
      record { inv = initial_runtime-Inv _ refl; state = refl; accepting = refl },
    )
  ]
]

-- how often a call is in a log
abbrev pub opened_times : Resource → List ResourceEvent → ℕ
opened_times r [] = 0
opened_times observer (opens observer ∷ log) = suc (opened_times observer log)
opened_times postgres_runtime (opens postgres_runtime ∷ log) =
    suc (opened_times postgres_runtime log)
opened_times r (e ∷ log) = opened_times r log

abbrev pub closed_times : Resource → List ResourceEvent → ℕ
closed_times r [] = 0
closed_times observer (closes observer ∷ log) = suc (closed_times observer log)
closed_times postgres_runtime (closes postgres_runtime ∷ log) =
    suc (closed_times postgres_runtime log)
closed_times r (e ∷ log) = closed_times r log

-- the context is live and the configuration loads
abbrev is_loaded : ContextView → Option Cause → Bool
is_loaded live none = true
is_loaded _ _ = false

abbrev observers_in : Observability → ℕ
observers_in (service _) = 1
observers_in _ = 0

abbrev pools_in : Postgres → ℕ
pools_in postgres_opened = 1
pools_in _ = 0

abbrev pools_behind : Observability → Postgres → ℕ
pools_behind (open_failed _) p = 0
pools_behind _ p = pools_in p

-- the observer and the PostgreSQL runtime are opened so often
abbrev Opens : ℕ → ℕ → Startup → Type 0
Opens observers pools s =
    (opened_times observer s.log ≡ observers) × (opened_times postgres_runtime s.log ≡ pools)

abbrev Closes : ℕ → ℕ → Startup → Type 0
Closes observers pools s =
    (closed_times observer s.log ≡ observers) × (closed_times postgres_runtime s.log ≡ pools)

-- so often is each opened, and kept by a runtime that is ready, or closed again
abbrev Settles : ℕ → ℕ → Startup → Type 0
Settles observers pools s =
    Opens observers pools s
    × (((r : Runtime) × (s.outcome ≡ started r) × IsReady r × (pools ≡ 1) × Closes 0 0 s)
        ⊎ ((e : ErrorCode) × (s.outcome ≡ failed_with e) × Closes observers pools s))

-- what the environment hands out to the startup is opened, and kept or closed again
abbrev pub IsSettled : Environment → Startup → Type 0
IsSettled env s =
    Settles (if is_loaded env.ctx env.load_error then observers_in env.observability else 0)
      (if is_loaded env.ctx env.load_error then pools_behind env.observability env.postgres else 0)
      s

observed-cases :
    (env : Environment) (o : Observability)
    → ((r : Runtime) × (start_observer o (build env) ≡ started r) × IsReady r)
      ⊎ ((e : ErrorCode) × (start_observer o (build env) ≡ failed_with e))
unfolding start_observer
observed-cases env o = elim (build-cases env) [
  | inr (e, p) ↦ inr (e, rw p (kept o e))
  | inl (r, p, h) ↦ rw p (decided o r h)
]
  where
    kept : (o : Observability) (e : ErrorCode) → start_observer o (failed_with e) ≡ failed_with e
    kept (service (some cause)) e = refl
    kept (service none) e = refl
    kept none_configured e = refl
    kept (open_failed cause) e = refl

    decided :
        (o : Observability) (r : Runtime)
        → IsReady r
        → ((r' : Runtime) × (start_observer o (started r) ≡ started r') × IsReady r')
          ⊎ ((e : ErrorCode) × (start_observer o (started r) ≡ failed_with e))
    decided (service (some cause)) r h = inr (_, refl)
    decided (service none) r h = inl (r, refl, h)
    decided none_configured r h = inl (r, refl, h)
    decided (open_failed cause) r h = inl (r, refl, h)

abbrev is_failure : Outcome → Bool
is_failure (started r) = false
is_failure (failed_with e) = true

-- the flag of the observer is as it was, unless a runtime is returned
abbrev IsOwned : Bool → Startup → Type 0
IsOwned owned s = s.observer_owned ≡ is_failure s.outcome && owned

postgres-Settles :
    (env : Environment) (owned : Bool) (p : Postgres)
    → Settles 0 (pools_in p) (open_postgres env owned p) × IsOwned owned (open_postgres env owned p)
unfolding open_postgres close_postgres
postgres-Settles env owned (postgres_failed cause) =
    (((refl, refl), inr (_, refl, (refl, refl))), refl)
postgres-Settles env owned postgres_nil = (((refl, refl), inr (_, refl, (refl, refl))), refl)
postgres-Settles env owned postgres_opened = elim (observed-cases env env.observability) [
  | inl (r, q, h) ↦ rw q (((refl, refl), inl (r, refl, h, refl, (refl, refl))), refl)
  | inr (e, q) ↦ rw q (((refl, refl), inr (e, refl, (refl, refl))), refl)
]

closed_times-append :
    (log : List ResourceEvent)
    → (closed_times observer (log ++ closes observer ∷ []) ≡ suc (closed_times observer log))
      × (closed_times postgres_runtime (log ++ closes observer ∷ [])
          ≡ closed_times postgres_runtime log)
      × (opened_times observer (log ++ closes observer ∷ []) ≡ opened_times observer log)
      × (opened_times postgres_runtime (log ++ closes observer ∷ [])
          ≡ opened_times postgres_runtime log)
closed_times-append [] = (refl, refl, refl, refl)
closed_times-append (opens observer ∷ log) =
    let (a, b, c, d) = closed_times-append log in (a, b, ap suc c, d)
closed_times-append (opens postgres_runtime ∷ log) =
    let (a, b, c, d) = closed_times-append log in (a, b, c, ap suc d)
closed_times-append (closes observer ∷ log) =
    let (a, b, c, d) = closed_times-append log in (ap suc a, b, c, d)
closed_times-append (closes postgres_runtime ∷ log) =
    let (a, b, c, d) = closed_times-append log in (a, ap suc b, c, d)

-- with an observer that is owned
with_observer :
    (pools : ℕ) (s : Startup)
    → Settles 0 pools s
    → IsOwned true s
    → Settles 1 pools (with_event (opens observer) (close_observer s))
unfolding close_observer
with_observer pools s ((a, b), inl (r, o, h, n, (c, d))) own =
    let kept : s.observer_owned ≡ false = own ∙ ap (λ x. is_failure x && true) o in
    rw kept ((ap suc a, b), inl (r, o, h, n, (c, d)))
with_observer pools s ((a, b), inr (e, o, (c, d))) own =
    let held : s.observer_owned ≡ true = own ∙ ap (λ x. is_failure x && true) o in
    let (x, y, z, w) = closed_times-append s.log in
    rw held ((ap suc (z ∙ a), w ∙ b), inr (e, o, (x ∙ ap suc c, y ∙ d)))

and_false : (b : Bool) → b && false ≡ false
and_false true = refl
and_false false = refl

abbrev closed_with : Startup → Startup
closed_with s = record s { log = s.log ++ closes observer ∷ [] }

without_observer :
    (pools : ℕ) (s : Startup)
    → Settles 0 pools s
    → IsOwned false s
    → Settles 0 pools (close_observer s)
unfolding close_observer
without_observer pools s h own =
    let kept : s.observer_owned ≡ false = own ∙ and_false (is_failure s.outcome) in
    subst (Settles 0 pools) (sym (ap (λ b. if b then closed_with s else s) kept)) h

start_failed-Settles : (e : ErrorCode) → Settles 0 0 (start_failed e)
start_failed-Settles e = ((refl, refl), inr (e, refl, (refl, refl)))

observability-Settles :
    (env : Environment) (o : Observability)
    → Settles (observers_in o) (pools_behind o env.postgres) (open_observability env o)
unfolding open_observability
observability-Settles env (open_failed cause) = start_failed-Settles _
observability-Settles env none_configured =
    let (h, own) = postgres-Settles env false env.postgres in without_observer _ _ h own
observability-Settles env (service starts) =
    let (h, own) = postgres-Settles env true env.postgres in with_observer _ _ h own

load-Settles :
    (env : Environment) (error : Option Cause)
    → Settles
        (if is_loaded live error then observers_in env.observability else 0)
        (if is_loaded live error then pools_behind env.observability env.postgres else 0)
        (load env error)
unfolding load
load-Settles env (some cause) = start_failed-Settles _
load-Settles env none = observability-Settles env env.observability

-- Startup opens the observer and the PostgreSQL runtime once each where it gets to them and its
-- environment hands them out, and else not at all. Either it returns a runtime, which is ready, accepts
-- work and satisfies the invariant, and has closed nothing; or it fails and has closed each as often as
-- it opened it.
pub start-IsSettled : (env : Environment) → IsSettled env (start env)
unfolding start
start-IsSettled env =
    elim env.ctx
      as (λ c.
        Settles (if is_loaded c env.load_error then observers_in env.observability else 0)
          (if is_loaded c env.load_error then pools_behind env.observability env.postgres else 0)
          (elim c [
            | nil_context ↦ start_failed invalid_input
            | ended ↦ start_failed (new_error canceled is_canceled)
            | expired ↦ start_failed (new_error canceled is_deadline_exceeded)
            | live ↦ load env env.load_error
          ])) [
            | nil_context ↦ start_failed-Settles invalid_input
            | ended ↦ start_failed-Settles _
            | expired ↦ start_failed-Settles _
            | live ↦ load-Settles env env.load_error
          ]

-- health settings inside their documented bounds
pub record InBounds (p : ConfigParams) (timeout interval threshold : ℕ) : Type 0 where
  pub timeout_is : p.check_timeout ≡ pos timeout
  pub interval_is : p.check_interval ≡ pos interval
  pub threshold_is : p.failure_threshold ≡ pos threshold
  pub timeout_bounds : (millisecond ≤ timeout) × (timeout ≤ minute)
  pub interval_bounds : (millisecond ≤ interval) × (interval ≤ 10 * minute)
  pub threshold_bounds : (1 ≤ threshold) × (threshold ≤ 100)

abbrev pub config_of : ℕ → ℕ → ℕ → Config
config_of timeout interval threshold = record {
  check_timeout = timeout;
  check_interval = interval;
  failure_threshold = threshold;
  has_clock = true;
}

new_config-ok :
    (p : ConfigParams) (timeout interval threshold : ℕ)
    → InBounds p timeout interval threshold
    → new_config p ≡ ok (config_of timeout interval threshold)
unfolding new_config
new_config-ok p timeout interval threshold h = ground arith

abbrev pub monitor_of : Config → Monitor
monitor_of c = record {
  config = c;
  state = new;
  readiness = signal unknown runtime_starting;
  last_database_success = 0;
  last_compatibility_success = 0;
  consecutive_failures = 0;
}

new_monitor-ok :
    (timeout interval threshold : ℕ)
    → 0 < timeout
    → 0 < interval
    → 0 < threshold
    → new_monitor true (config_of timeout interval threshold)
      ≡ ok (monitor_of (config_of timeout interval threshold))
unfolding new_monitor
new_monitor-ok timeout interval threshold t i n = ground arith

-- Startup succeeds: where the context is live, the configuration loads, PostgreSQL opens, the
-- observer is absent or starts, and the health settings are inside their documented bounds, it
-- returns a runtime, which is ready at the given time.
pub start_succeeds :
    (env : Environment) (timeout interval threshold : ℕ)
    → env.ctx ≡ live
    → env.load_error ≡ none
    → env.postgres ≡ postgres_opened
    → (env.observability ≡ none_configured) ⊎ (env.observability ≡ service none)
    → InBounds env.health_params timeout interval threshold
    → (r : Runtime) × ((start env).outcome ≡ started r)
      × (r.health.state ≡ ready)
      × (r.health.last_database_success ≡ env.now)
unfolding start load open_observability open_postgres start_observer close_observer close_postgres
start_succeeds env timeout interval threshold c l p o h =
    let config = config_of timeout interval threshold in
    let built =
      build_started env config (monitor_of config)
        (new_config-ok env.health_params timeout interval threshold h)
        (new_monitor-ok timeout interval threshold (omega arith) (omega arith) (omega arith)) in
    (initial_runtime (serving_monitor (monitor_of config) env.now), ground arith, refl, refl)
