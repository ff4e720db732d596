-- ===== src/Health.antt =====
-- The runtime health monitor: backend/internal/runtime/health (implementation.go, model.go,
-- config.go).
--
-- The mutex makes each locked section one atomic operation; `Readiness` gives up the lock around
-- the database check, so it is two sections, `readiness_begin` and `readiness_end`, with any other
-- operations between them. A time is the nanoseconds since Go's zero time, so `IsZero` is `== 0`;
-- each reading of the clock is an argument. `now.Sub(last)` is negative where the clock went back,
-- and then passes the same tests as the truncated difference 0, since both intervals are positive.
-- A context is seen where the code reads it. Receivers are not nil.
pub mod Lifecycle
pub mod Invariant
pub mod Failures
pub mod Samples
use software_engineering_pla.Shared.{
  ℕ, ◌+◌, ◌-◌, ◌*◌, ◌≡◌, refl, ◌⊎◌, inl, inr, Bool, true, false, not, ◌&&◌, ◌||◌, Option, none,
  some, ltb, leb, ◌==◌, if◌then◌else◌,
}
use software_engineering_pla.Shared.Int.{ℤ, pos, pos_part, ltb_ℤ}

pub data RuntimeState : Type 0 where
  new loading validating connecting compatibility_checking : RuntimeState
  ready draining stopping stopped failed : RuntimeState

abbrev pub index : RuntimeState → ℕ
index new = 0
index loading = 1
index validating = 2
index connecting = 3
index compatibility_checking = 4
index ready = 5
index draining = 6
index stopping = 7
index stopped = 8
index failed = 9

-- `==` on the constants
abbrev pub state_eq : RuntimeState → RuntimeState → Bool
state_eq s t = index s == index t

pub data Status : Type 0 where
  healthy unhealthy unknown : Status

pub data ReasonCode : Type 0 where
  runtime_starting runtime_ready runtime_draining runtime_stopping runtime_stopped : ReasonCode
  runtime_failed database_unavailable database_timeout health_check_canceled : ReasonCode
  schema_incompatible privilege_incompatible readiness_failure_grace : ReasonCode
  readiness_stale runtime_internal : ReasonCode

pub record Signal : Type 0 where
  pub status : Status
  pub reason : ReasonCode

abbrev pub signal : Status → ReasonCode → Signal
signal s r = record { status = s; reason = r }

pub data ErrorCode : Type 0 where
  invalid_config invalid_input invalid_transition : ErrorCode

pub data Result {ℓ} (A : Type ℓ) : Type ℓ where
  ok : A → Result A
  err : ErrorCode → Result A

pub Result-cases {ℓ} :
    {A : Type ℓ} (x : Result A) → ((a : A) × (x ≡ ok a)) ⊎ ((e : ErrorCode) × (x ≡ err e))
Result-cases (ok a) = inl (a, refl)
Result-cases (err e) = inr (e, refl)

-- `time.Duration` counts nanoseconds
abbrev pub millisecond : ℕ
millisecond = 1000000

abbrev pub minute : ℕ
minute = 60000000000

pub record ConfigParams : Type 0 where
  pub check_timeout : ℤ
  pub check_interval : ℤ
  pub failure_threshold : ℤ

-- `has_clock` is false only in the zero `Config`, since `new_config` installs the system clock.
pub record Config : Type 0 where
  pub check_timeout : ℕ
  pub check_interval : ℕ
  pub failure_threshold : ℕ
  pub has_clock : Bool

unfoldable pub new_config : ConfigParams → Result Config
new_config p =
    if ltb_ℤ p.check_timeout (pos millisecond)
      || (ltb_ℤ (pos minute) p.check_timeout
          || (ltb_ℤ p.check_interval (pos millisecond)
              || (ltb_ℤ (pos (10 * minute)) p.check_interval
                  || (ltb_ℤ p.failure_threshold (pos 1) || ltb_ℤ (pos 100) p.failure_threshold))))
    then err invalid_config
    else ok (record {
      check_timeout = pos_part p.check_timeout;
      check_interval = pos_part p.check_interval;
      failure_threshold = pos_part p.failure_threshold;
      has_clock = true;
    })

pub record Monitor : Type 0 where
  pub config : Config
  pub state : RuntimeState
  pub readiness : Signal
  pub last_database_success : ℕ
  pub last_compatibility_success : ℕ
  pub consecutive_failures : ℕ

pub record HealthSnapshot : Type 0 where
  pub observed_at : ℕ
  pub runtime_state : RuntimeState
  pub liveness : Signal
  pub readiness : Signal
  pub last_successful_database_check : ℕ
  pub last_successful_compatibility_check : ℕ
  pub consecutive_readiness_failures : ℕ

-- `has_checker` tells whether the database checker is not nil
unfoldable pub new_monitor : Bool → Config → Result Monitor
new_monitor has_checker config =
    if not has_checker
      || (not config.has_clock
          || (config.check_timeout == 0
              || (config.check_interval == 0 || config.failure_threshold == 0)))
    then err invalid_input
    else ok (record {
      config = config;
      state = new;
      readiness = signal unknown runtime_starting;
      last_database_success = 0;
      last_compatibility_success = 0;
      consecutive_failures = 0;
    })

-- `allowedTransition`, one clause for each `case`
abbrev pub allowed_transition : RuntimeState → RuntimeState → Bool
allowed_transition new next =
    state_eq next loading || (state_eq next failed || state_eq next stopped)
allowed_transition loading next =
    state_eq next validating || (state_eq next failed || state_eq next stopping)
allowed_transition validating next =
    state_eq next connecting || (state_eq next failed || state_eq next stopping)
allowed_transition connecting next =
    state_eq next compatibility_checking || (state_eq next failed || state_eq next stopping)
allowed_transition compatibility_checking next =
    state_eq next ready || (state_eq next failed || state_eq next stopping)
allowed_transition ready next =
    state_eq next draining || (state_eq next failed || state_eq next stopping)
allowed_transition draining next = state_eq next stopping || state_eq next stopped
allowed_transition stopping next = state_eq next stopped
allowed_transition failed next = state_eq next stopped
allowed_transition stopped next = false

-- the `switch` of `Transition`, after the state is set
enter : RuntimeState → ℕ → Monitor → Monitor
enter ready now m = record m {
  readiness = signal healthy runtime_ready;
  last_database_success = now;
  last_compatibility_success = now;
  consecutive_failures = 0;
}
enter draining now m = record m { readiness = signal unhealthy runtime_draining }
enter stopping now m = record m { readiness = signal unhealthy runtime_stopping }
enter stopped now m = record m { readiness = signal unhealthy runtime_stopped }
enter failed now m = record m { readiness = signal unhealthy runtime_failed }
enter next now m = record m { readiness = signal unknown runtime_starting }

unfoldable pub transition : Monitor → RuntimeState → ℕ → Monitor × Option ErrorCode
unfolding enter
transition m next now =
    if state_eq next m.state
    then (m, none)
    else if allowed_transition m.state next
    then (enter next now (record m { state = next }), none)
    else (
      record m { state = failed; readiness = signal unhealthy runtime_internal },
      some invalid_transition,
    )

abbrev pub liveness_for_state : RuntimeState → Signal
liveness_for_state failed = signal unhealthy runtime_failed
liveness_for_state stopped = signal unhealthy runtime_stopped
liveness_for_state ready = signal healthy runtime_ready
liveness_for_state draining = signal healthy runtime_draining
liveness_for_state stopping = signal healthy runtime_stopping
liveness_for_state _ = signal healthy runtime_starting

abbrev pub snapshot_locked : Monitor → ℕ → HealthSnapshot
snapshot_locked m observed = record {
  observed_at = observed;
  runtime_state = m.state;
  liveness = liveness_for_state m.state;
  readiness = m.readiness;
  last_successful_database_check = m.last_database_success;
  last_successful_compatibility_check = m.last_compatibility_success;
  consecutive_readiness_failures = m.consecutive_failures;
}

abbrev snapshot_with_liveness : Monitor → Signal → ℕ → HealthSnapshot
snapshot_with_liveness m s observed = record (snapshot_locked m observed) { liveness = s }

abbrev snapshot_with_readiness : Monitor → Signal → ℕ → HealthSnapshot
snapshot_with_readiness m s observed = record (snapshot_locked m observed) { readiness = s }

-- `Snapshot` reads the clock for the age of the last success, and again for the view.
unfoldable pub snapshot : Monitor → ℕ → ℕ → Monitor × HealthSnapshot
snapshot m now observed =
    let m' =
      if state_eq m.state ready
        && (not (m.last_database_success == 0)
            && ltb (2 * m.config.check_interval) (now - m.last_database_success))
      then record m { readiness = signal unhealthy readiness_stale }
      else m in
    (m', snapshot_locked m' observed)

-- what an operation sees of its context; `expired` is one that ended by its deadline
pub data ContextView : Type 0 where
  nil_context live ended expired : ContextView

abbrev is_live : ContextView → Bool
is_live live = true
is_live _ = false

-- `Liveness`; the monitor is only read
unfoldable pub liveness : Monitor → ContextView → ℕ → HealthSnapshot
liveness m ctx observed =
    if not (is_live ctx)
    then snapshot_with_liveness m (signal unknown health_check_canceled) observed
    else if state_eq m.state failed
    then snapshot_with_liveness m (signal unhealthy runtime_failed) observed
    else if state_eq m.state stopped
    then snapshot_with_liveness m (signal unhealthy runtime_stopped) observed
    else if not (state_eq m.state ready)
        && (not (state_eq m.state draining) && not (state_eq m.state stopping))
    then snapshot_with_liveness m (signal healthy runtime_starting) observed
    else snapshot_with_liveness m (signal healthy runtime_ready) observed

-- What `errors.Is` and `errors.As` find in the checker's error; a `HealthReason` text that is no
-- `ReasonCode` is `none`, as is an error without the method.
pub record CheckError : Type 0 where
  pub is_canceled : Bool
  pub is_deadline_exceeded : Bool
  pub health_reason : Option ReasonCode

abbrev pub coded_reason : Option ReasonCode → ReasonCode
coded_reason (some database_timeout) = database_timeout
coded_reason (some schema_incompatible) = schema_incompatible
coded_reason (some privilege_incompatible) = privilege_incompatible
coded_reason _ = database_unavailable

unfoldable pub classify_check_failure : CheckError → ReasonCode
classify_check_failure e =
    if e.is_canceled
    then health_check_canceled
    else if e.is_deadline_exceeded
    then database_timeout
    else coded_reason e.health_reason

-- not the zero time, and at most two intervals old
abbrev pub is_fresh : Monitor → ℕ → Bool
is_fresh m now =
    not (m.last_database_success == 0)
    && leb (now - m.last_database_success) (2 * m.config.check_interval)

unfoldable pub record_failure : Monitor → ReasonCode → ℕ → ℕ → Monitor × HealthSnapshot
record_failure m reason now observed =
    if not (state_eq m.state ready)
    then (m, snapshot_locked m observed)
    else let failures = m.consecutive_failures + 1 in
      let s =
        if ltb failures m.config.failure_threshold && is_fresh m now
        then signal healthy readiness_failure_grace
        else signal unhealthy reason in
      let m' = record m { readiness = s; consecutive_failures = failures } in
      (m', snapshot_locked m' observed)

-- The section of `Readiness` after a check that passed.
unfoldable pub record_success : Monitor → ℕ → ℕ → Monitor × HealthSnapshot
record_success m now observed =
    if not (state_eq m.state ready)
    then (m, snapshot_locked m observed)
    else let m' = record m {
      readiness = signal healthy runtime_ready;
      last_database_success = now;
      last_compatibility_success = now;
      consecutive_failures = 0;
    } in
      (m', snapshot_locked m' observed)

-- `Readiness` up to the check: its answer, or none if it goes on to call the checker.
unfoldable pub readiness_begin : Monitor → ContextView → ℕ → ℕ → Monitor × Option HealthSnapshot
unfolding snapshot
readiness_begin m ctx now observed =
    if not (state_eq m.state ready)
    then (let (m', s) = snapshot m now observed in (m', some s))
    else if not (is_live ctx)
    then (m, some (snapshot_with_readiness m (signal unknown health_check_canceled) observed))
    else (m, none)

-- `Readiness` after the check. `error` is what the checker returned, `still` what the caller's
-- context then is.
unfoldable pub readiness_end :
    Monitor → Option CheckError → ContextView → ℕ → ℕ → Monitor × HealthSnapshot
unfolding record_failure record_success classify_check_failure
readiness_end m none still now observed = record_success m now observed
readiness_end m (some e) still now observed =
    if e.is_canceled && not (is_live still)
    then (m, snapshot_with_readiness m (signal unknown health_check_canceled) observed)
    else record_failure m (classify_check_failure e) now observed

-- the whole of `Readiness` when nothing else runs during the check
unfoldable pub readiness :
    Monitor → ContextView → Option CheckError → ContextView → ℕ → ℕ → Monitor × HealthSnapshot
unfolding readiness_begin readiness_end
readiness m ctx error still now observed =
    let (m', answer) = readiness_begin m ctx now observed in
    elim answer [ some s ↦ (m', s) | none ↦ readiness_end m' error still now observed ]
