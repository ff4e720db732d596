-- ===== src/Health/Lifecycle.antt =====
-- The life of a monitor (backend/internal/runtime/health/implementation.go): its operations as
-- atomic steps in any order, and what holds of the runtime state along them.
use software_engineering_pla.Shared.{
  ℕ, ◌≡◌, refl, ◌≢◌, ◌↔◌, ◌⊎◌, inl, inr, true, false, Option, none, some, arith, Bool-cases,
}
use software_engineering_pla.Health.{
  RuntimeState, new, loading, validating, connecting, compatibility_checking, ready, draining,
  stopping, stopped, failed, ErrorCode, invalid_transition, Monitor, ContextView, CheckError,
  allowed_transition, transition, snapshot, readiness_begin, readiness_end, liveness,
  runtime_internal, signal, unhealthy, live, snapshot_locked, state_eq,
}

-- One locked section of one call, with every value that it may read from outside.
pub data Step (m : Monitor) : Monitor → Type 0 where
  transit : (next : RuntimeState) (now : ℕ) → Step m (transition m next now).0
  observe : (now seen : ℕ) → Step m (snapshot m now seen).0
  begin : (ctx : ContextView) (now seen : ℕ) → Step m (readiness_begin m ctx now seen).0
  finish :
      (error : Option CheckError) (still : ContextView) (now seen : ℕ)
      → Step m (readiness_end m error still now seen).0

pub data Reach (m : Monitor) : Monitor → Type 0 where
  here : Reach m m
  then : {u v : Monitor} → Reach m u → Step u v → Reach m v

-- The legal edges of the state machine, written from the diagram: forward by one until ready,
-- to failed or stopping while it starts or serves, and down to stopped.
pub data Edge : RuntimeState → RuntimeState → Type 0 where
  load : Edge new loading
  validate : Edge loading validating
  connect : Edge validating connecting
  check : Edge connecting compatibility_checking
  serve : Edge compatibility_checking ready
  drain : Edge ready draining
  unstarted : Edge new stopped
  drained : Edge draining stopped
  stop_drain : Edge draining stopping
  stop_load : Edge loading stopping
  stop_validate : Edge validating stopping
  stop_connect : Edge connecting stopping
  stop_check : Edge compatibility_checking stopping
  stop_ready : Edge ready stopping
  fail_new : Edge new failed
  fail_load : Edge loading failed
  fail_validate : Edge validating failed
  fail_connect : Edge connecting failed
  fail_check : Edge compatibility_checking failed
  fail_ready : Edge ready failed
  end_stop : Edge stopping stopped
  end_failed : Edge failed stopped

pub Edge-allowed : {s t : RuntimeState} → Edge s t → allowed_transition s t ≡ true
Edge-allowed load = refl
Edge-allowed _ = refl

pub allowed-Edge : (s t : RuntimeState) → allowed_transition s t ≡ true → Edge s t
allowed-Edge new loading h = load
allowed-Edge loading validating h = validate
allowed-Edge validating connecting h = connect
allowed-Edge connecting compatibility_checking h = check
allowed-Edge compatibility_checking ready h = serve
allowed-Edge ready draining h = drain
allowed-Edge new stopped h = unstarted
allowed-Edge draining stopped h = drained
allowed-Edge draining stopping h = stop_drain
allowed-Edge loading stopping h = stop_load
allowed-Edge validating stopping h = stop_validate
allowed-Edge connecting stopping h = stop_connect
allowed-Edge compatibility_checking stopping h = stop_check
allowed-Edge ready stopping h = stop_ready
allowed-Edge new failed h = fail_new
allowed-Edge loading failed h = fail_load
allowed-Edge validating failed h = fail_validate
allowed-Edge connecting failed h = fail_connect
allowed-Edge compatibility_checking failed h = fail_check
allowed-Edge ready failed h = fail_ready
allowed-Edge stopping stopped h = end_stop
allowed-Edge failed stopped h = end_failed
allowed-Edge _ _ h = cc

Edge-ne : {s t : RuntimeState} → Edge s t → t ≢ s
Edge-ne load = ground arith
Edge-ne _ = ground arith

state_eq_sound : (s t : RuntimeState) → state_eq s t ≡ true → s ≡ t
state_eq_sound s t h = ground arith

state_eq_self : (s : RuntimeState) → state_eq s s ≡ true
state_eq_self s = ground arith

transition_same :
    (m : Monitor) (next : RuntimeState) (now : ℕ)
    → state_eq next m.state ≡ true
    → transition m next now ≡ (m, none)
unfolding transition
transition_same m next now h = ground arith

transition_moves :
    (m : Monitor) (next : RuntimeState) (now : ℕ)
    → allowed_transition m.state next ≡ true
    → state_eq next m.state ≡ false
    → ((transition m next now).1 ≡ none)
      × ((transition m next now).0.state ≡ next)
      × ((transition m next now).0.config ≡ m.config)
unfolding transition
transition_moves m next now h e = ground arith

transition_refused :
    (m : Monitor) (next : RuntimeState) (now : ℕ)
    → state_eq next m.state ≡ false
    → allowed_transition m.state next ≡ false
    → ((transition m next now).1 ≡ some invalid_transition)
      × ((transition m next now).0.state ≡ failed)
      × ((transition m next now).0.readiness ≡ signal unhealthy runtime_internal)
unfolding transition
transition_refused m next now e h = ground arith

-- The result `r` of a request for the state `next`: nothing changed, a move along an edge, or a
-- refusal that fails the monitor.
abbrev pub IsOutcome : Monitor → RuntimeState → Monitor × Option ErrorCode → Type 0
IsOutcome m next r =
    ((next ≡ m.state) × (r ≡ (m, none)))
    ⊎ (Edge m.state next × (r.1 ≡ none) × (r.0.state ≡ next) × (r.0.config ≡ m.config))
    ⊎ ((next ≢ m.state)
        × (¬ Edge m.state next)
        × (r.1 ≡ some invalid_transition)
        × (r.0.state ≡ failed)
        × (r.0.readiness ≡ signal unhealthy runtime_internal))

-- `Transition` has three outcomes. To the present state it changes nothing and succeeds. Along an
-- edge of the diagram it succeeds, moves to the requested state, and keeps the configuration. Any
-- other request is an error, and leaves the monitor failed and unhealthy for an internal reason.
pub transition-IsOutcome :
    (m : Monitor) (next : RuntimeState) (now : ℕ) → IsOutcome m next (transition m next now)
transition-IsOutcome m next now = elim (Bool-cases (state_eq next m.state)) [
  | inl same ↦ inl (state_eq_sound next m.state same, transition_same m next now same)
  | inr other ↦ elim (Bool-cases (allowed_transition m.state next)) [
    | inl allowed ↦
        let moved = transition_moves m next now allowed other in
        inr (inl (allowed-Edge m.state next allowed, moved.0, moved.1, moved.2))
    | inr refused ↦
        let failed = transition_refused m next now other refused in
        inr (
          inr (
            λ e. cc (state_eq_self m.state, e, other),
            λ edge. cc (Edge-allowed edge, refused),
            failed.0,
            failed.1,
            failed.2,
          ))
  ]
]

abbrev pub IsRetired : RuntimeState → Type 0
IsRetired draining = Unit
IsRetired stopping = Unit
IsRetired stopped = Unit
IsRetired failed = Unit
IsRetired _ = ⊥

Step-IsRetired : {m n : Monitor} → Step m n → IsRetired m.state → IsRetired n.state
unfolding transition snapshot readiness_begin readiness_end
Step-IsRetired (transit next now) h = ground arith
Step-IsRetired (observe now seen) h = ground arith
Step-IsRetired (begin ctx now seen) h = ground arith
Step-IsRetired (finish error still now seen) h = ground arith

IsRetired-Reach : {m n : Monitor} → IsRetired m.state → Reach m n → IsRetired n.state
IsRetired-Reach h here = h
IsRetired-Reach h (then r s) = Step-IsRetired s (IsRetired-Reach h r)

IsRetired-ne : (s : RuntimeState) → IsRetired s → s ≢ ready
IsRetired-ne s h = ground arith

-- Retirement is final: a monitor that drains, stops, has stopped or has failed is in one of these
-- four states after any sequence of operations, and so is never ready again.
pub Reach-IsRetired :
    {m n : Monitor} → IsRetired m.state → Reach m n → IsRetired n.state × (n.state ≢ ready)
Reach-IsRetired {n} h r = let final = IsRetired-Reach h r in (final, IsRetired-ne n.state final)

Step-ready :
    {m n : Monitor}
    → Step m n
    → n.state ≡ ready
    → (m.state ≡ ready) ⊎ (m.state ≡ compatibility_checking)
unfolding transition snapshot readiness_begin readiness_end
Step-ready (transit next now) h = ground arith
Step-ready (observe now seen) h = ground arith
Step-ready (begin ctx now seen) h = ground arith
Step-ready (finish error still now seen) h = ground arith

-- A monitor that is not ready becomes ready only through a state in which it checks compatibility.
pub Reach-ready :
    {m n : Monitor}
    → m.state ≢ ready
    → n.state ≡ ready
    → Reach m n
    → (u : Monitor) × Reach m u × Reach u n × (u.state ≡ compatibility_checking)
Reach-ready start end here = absurd (start end)
Reach-ready start end (then {u} r s) = elim (Step-ready s end) [
  | inl already ↦
      let (v, first, rest, checking) = Reach-ready start already r in
      (v, first, then rest s, checking)
  | inr checking ↦ (u, r, then here s, checking)
]

-- `Liveness` under a live context and the liveness of a snapshot agree on the status, which is
-- unhealthy exactly in the failed and in the stopped state.
pub liveness_status :
    (m : Monitor) (seen : ℕ)
    → ((liveness m live seen).liveness.status ≡ (snapshot_locked m seen).liveness.status)
      × (((liveness m live seen).liveness.status ≡ unhealthy)
          ↔ ((m.state ≡ failed) ⊎ (m.state ≡ stopped)))
unfolding liveness
liveness_status m seen = (ground arith, (λ h. ground arith, λ h. ground arith))
