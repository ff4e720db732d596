-- ===== src/App/Safety.antt =====
-- Admission and shutdown (backend/internal/runtime/app) under every interleaving.
use software_engineering_pla.Shared.{
  ℕ, ◌+◌, ◌%◌, ◌^◌, ◌≤◌, ◌<◌, ◌≡◌, ◌≢◌, refl, sym, subst, ap, ◌⊎◌, inl, inr, Bool, true, false,
  Bool-cases, ◌∙◌, List, [], ◌∷◌, arith, length, if◌then◌else◌,
}
use software_engineering_pla.Health.{
  ContextView, RuntimeState, ready, draining, stopping, stopped, Monitor, transition, snapshot,
  readiness_begin, readiness_end,
}
use software_engineering_pla.App.Work.{
  Runtime, graceful, work_canceled, forced, ShutdownResult, Phase, serving, announced, waiting,
  settled, canceling, closing, done, admit, released, panicked, release, request_force, contains,
  insert, delete, is_empty, close,
}
use software_engineering_pla.App.Shutdown.{
  announce, stop_admission, drained, drain_expired, drain_forced, mark_stopping, work_ended,
  work_abandoned, finish, Drain, announces, stops_admission, drains, expires, forces,
  marks_stopping, ends, abandons, finishes, Use, admits, releases, requests_force, observes, begins,
  ends_check, Step, drain, use_by, Reach, here, after,
}

-- the state of health that each phase goes with
abbrev pub state_of : Phase → RuntimeState
state_of serving = ready
state_of announced = draining
state_of (waiting _ _) = draining
state_of (settled _ _ _) = draining
state_of (canceling _ _ _ _) = stopping
state_of (closing _ _ _) = stopping
state_of (done r) = if r.resources_closed then stopped else stopping

abbrev pub is_accepting : Phase → Bool
is_accepting serving = true
is_accepting announced = true
is_accepting _ = false

-- What a phase remembers: the work at the start of the drain bounds what is left of it and what was
-- canceled, the channel it waits for is the one that the last release closes, and a graceful
-- outcome means that no work is left and none was canceled.
abbrev pub Remembers : List ℕ → ℕ → Phase → Type 0
Remembers work idle (waiting initial channel) = (length work ≤ initial) × (channel ≡ idle)
Remembers work idle (settled initial outcome canceled) =
    (length work ≤ initial)
    × (canceled ≤ initial)
    × (outcome ≡ graceful → (work ≡ []) × (canceled ≡ 0))
    × (length work ≤ canceled)
Remembers work idle (canceling initial outcome canceled channel) =
    (canceled ≤ initial) × (channel ≡ idle) × (outcome ≢ graceful)
Remembers work idle (closing initial outcome canceled) =
    (canceled ≤ initial)
    × (outcome ≡ graceful → (work ≡ []) × (canceled ≡ 0))
    × (outcome ≡ work_canceled → work ≡ [])
Remembers work idle (done result) =
    (result.canceled_work ≤ result.initial_in_flight)
    × (result.outcome ≡ graceful → (work ≡ []) × (result.canceled_work ≡ 0))
    × (result.outcome ≡ work_canceled → work ≡ [])
    × (result.resources_closed ≡ false → result.outcome ≡ forced)
Remembers work idle _ = Unit

pub record Inv (r : Runtime) : Type 0 where
  -- the channel is closed exactly while there is no work
  pub idle : r.closed r.zero_work ≡ is_empty r.in_flight
  -- channels made later are still open
  pub fresh : (c : ℕ) → r.next_channel ≤ c → r.closed c ≡ false
  pub allocated : r.zero_work < r.next_channel
  pub phase_state : r.health.state ≡ state_of r.phase
  pub phase_accepting : r.accepting ≡ is_accepting r.phase
  pub remembers : Remembers r.in_flight r.zero_work r.phase

pub length-delete : (id : ℕ) (ids : List ℕ) → length (delete id ids) ≤ length ids
length-delete id [] = omega arith
length-delete id (x ∷ ids) = ground (arith, length-delete id ids)

is_empty-insert : (id : ℕ) (ids : List ℕ) → is_empty (insert id ids) ≡ false
is_empty-insert id [] = refl
is_empty-insert id (x ∷ ids) = ground arith

is_empty-nil : (ids : List ℕ) → is_empty ids ≡ true → ids ≡ []
is_empty-nil [] h = refl
is_empty-nil (x ∷ ids) h = cc

length-nil : (ids : List ℕ) → length ids ≤ 0 → ids ≡ []
length-nil [] h = refl
length-nil (x ∷ ids) h = absurd (omega arith)

delete-nil : (id : ℕ) (ids : List ℕ) → ids ≡ [] → delete id ids ≡ []
delete-nil id ids e = rw e

-- A phase remembers nothing that a release at the same channel could undo.
Remembers-delete :
    (id : ℕ) (work : List ℕ) (idle : ℕ) (p : Phase)
    → Remembers work idle p
    → Remembers (delete id work) idle p
Remembers-delete id work idle serving h = tt
Remembers-delete id work idle p h = ground (arith, length-delete id work, delete-nil id work)

contains-nonempty : (ids : List ℕ) (id : ℕ) → contains ids id ≡ true → is_empty ids ≡ false
contains-nonempty [] id h = cc
contains-nonempty (x ∷ ids) id h = refl

release_missing :
    (r : Runtime) (id : ℕ) → contains r.in_flight id ≡ false → release r id ≡ released r
unfolding release
release_missing r id e = rw e

-- what `release` leaves when it finds the work
abbrev after_release : Runtime → ℕ → Runtime
after_release r id = record r {
  in_flight = delete id r.in_flight;
  contexts_canceled = id ∷ r.contexts_canceled;
  closed = if is_empty (delete id r.in_flight) then close r.closed r.zero_work else r.closed;
}

release_found :
    (r : Runtime) (id : ℕ)
    → r.closed r.zero_work ≡ false
    → contains r.in_flight id ≡ true
    → release r id ≡ released (after_release r id)
unfolding release
release_found r id still e = ground arith

after_release-Inv :
    (r : Runtime) (id : ℕ) → Inv r → r.closed r.zero_work ≡ false → Inv (after_release r id)
after_release-Inv r id h still = record {
  idle = ground arith;
  fresh = λ c le. ground (arith, h.fresh c le, h.allocated);
  allocated = h.allocated;
  phase_state = h.phase_state;
  phase_accepting = h.phase_accepting;
  remembers = Remembers-delete id r.in_flight r.zero_work r.phase h.remembers;
}

-- The last release closes the channel that `Admit` made, once: while the invariant holds, `release`
-- does not panic, for any identifier, in flight or not, and it keeps the invariant.
pub release_returns :
    (r : Runtime) (id : ℕ) → Inv r → (s : Runtime) × (release r id ≡ released s) × Inv s
release_returns r id h = elim (Bool-cases (contains r.in_flight id)) [
  | inr missing ↦ (r, release_missing r id missing, h)
  | inl found ↦
      let still = h.idle ∙ contains-nonempty r.in_flight id found in
      (after_release r id, release_found r id still found, after_release-Inv r id h still)
]

-- what `Admit` leaves while the runtime accepts work
abbrev after_admit : Runtime → Runtime
after_admit r = record r {
  next_work_id = (r.next_work_id + 1) % 2 ^ 64;
  in_flight = insert ((r.next_work_id + 1) % 2 ^ 64) r.in_flight;
  zero_work = if is_empty r.in_flight then r.next_channel else r.zero_work;
  next_channel = if is_empty r.in_flight then r.next_channel + 1 else r.next_channel;
}

admit_cases :
    (r : Runtime) (ctx : ContextView)
    → ((admit r ctx).0 ≡ r) ⊎ ((r.accepting ≡ true) × ((admit r ctx).0 ≡ after_admit r))
unfolding admit
admit_cases r ctx = ground arith

Remembers-accepting :
    (work : List ℕ) (idle : ℕ) (p : Phase) → is_accepting p ≡ true → Remembers work idle p
Remembers-accepting work idle p h = ground arith

after_admit-Inv : (r : Runtime) → Inv r → r.accepting ≡ true → Inv (after_admit r)
after_admit-Inv r h on = record {
  idle =
      ground (
        arith,
        is_empty-insert ((r.next_work_id + 1) % 2 ^ 64) r.in_flight,
        h.fresh r.next_channel,
      );
  fresh = λ c le. ground (arith, h.fresh c);
  allocated = ground arith;
  phase_state = h.phase_state;
  phase_accepting = h.phase_accepting;
  remembers = Remembers-accepting _ _ r.phase (sym h.phase_accepting ∙ on);
}

admit-Inv : (r : Runtime) (ctx : ContextView) → Inv r → Inv (admit r ctx).0
admit-Inv r ctx h = elim (admit_cases r ctx) [
  | inl same ↦ subst Inv (sym same) h
  | inr (on, e) ↦ subst Inv (sym e) (after_admit-Inv r h on)
]

-- The goroutine changes health, admission, contexts and its own place, and no channel and no work.
Inv-phase :
    (r : Runtime) (m : Monitor) (p : Phase) (a : Bool) (canceled : List ℕ)
    → Inv r
    → m.state ≡ state_of p
    → a ≡ is_accepting p
    → Remembers r.in_flight r.zero_work p
    → Inv (record r { health = m; phase = p; accepting = a; contexts_canceled = canceled })
Inv-phase r m p a canceled h s e k = record {
  idle = h.idle;
  fresh = h.fresh;
  allocated = h.allocated;
  phase_state = s;
  phase_accepting = e;
  remembers = k;
}

Drain-Inv : {r s : Runtime} → Drain r s → Inv r → Inv s
unfolding announce stop_admission drained drain_expired drain_forced mark_stopping work_ended
    work_abandoned finish transition
Drain-Inv (announces now p) h = Inv-phase _ _ _ _ _ h (ground arith) (ground arith) (ground arith)
Drain-Inv (stops_admission p) h = Inv-phase _ _ _ _ _ h (ground arith) (ground arith) (ground arith)
Drain-Inv (drains initial channel p c) h =
    Inv-phase _ _ _ _ _ h (ground arith) (ground arith) (ground arith)
Drain-Inv (expires initial channel p) h =
    Inv-phase _ _ _ _ _ h (ground arith) (ground arith) (ground arith)
Drain-Inv (forces initial channel p f) h =
    Inv-phase _ _ _ _ _ h (ground arith) (ground arith) (ground arith)
Drain-Inv (marks_stopping initial outcome canceled now p) h =
    Inv-phase _ _ _ _ _ h (ground arith) (ground arith) (ground arith)
Drain-Inv (ends initial outcome canceled channel p c) h =
    Inv-phase _ _ _ _ _ h (ground arith) (ground arith) (ground arith)
Drain-Inv (abandons initial outcome canceled channel p) h =
    Inv-phase _ _ _ _ _ h (ground arith) (ground arith) (ground arith)
Drain-Inv (finishes initial outcome canceled true now p) h =
    Inv-phase _ _ _ _ _ h (ground arith) (ground arith) (ground arith)
Drain-Inv (finishes initial outcome canceled false now p) h =
    Inv-phase _ _ _ _ _ h (ground arith) (ground arith) (ground arith)

Inv-health :
    (r : Runtime) (m : Monitor) → Inv r → m.state ≡ r.health.state → Inv (record r { health = m })
Inv-health r m h e =
    Inv-phase r m r.phase r.accepting r.contexts_canceled h (e ∙ h.phase_state) h.phase_accepting
      h.remembers

Use-Inv : {r s : Runtime} → Use r s → Inv r → Inv s
unfolding request_force snapshot readiness_begin readiness_end
Use-Inv {r} (admits ctx) h = admit-Inv r ctx h
Use-Inv {r} (releases id {s} e) h = let (t, f, k) = release_returns r id h in subst Inv (cc) k
Use-Inv requests_force h = record {
  idle = h.idle;
  fresh = h.fresh;
  allocated = h.allocated;
  phase_state = h.phase_state;
  phase_accepting = h.phase_accepting;
  remembers = h.remembers;
}
Use-Inv {r} (observes now seen) h = Inv-health r _ h (ground arith)
Use-Inv {r} (begins ctx now seen) h = Inv-health r _ h (ground arith)
Use-Inv {r} (ends_check error still now seen) h = Inv-health r _ h (ground arith)

Step-Inv : {r s : Runtime} → Step r s → Inv r → Inv s
Step-Inv (drain d) h = Drain-Inv d h
Step-Inv (use_by u) h = Use-Inv u h

pub Reach-Inv : {r s : Runtime} → Inv r → Reach r s → Inv s
Reach-Inv h here = h
Reach-Inv h (after w st) = Step-Inv st (Reach-Inv h w)

-- Wherever the steps of a runtime that keeps the invariant lead, a `release` does not panic.
pub release_never_panics : (r s : Runtime) (id : ℕ) → Inv r → Reach r s → release s id ≢ panicked
release_never_panics r s id h w = let (t, e, _) = release_returns s id (Reach-Inv h w) in λ p. cc

-- The result of a finished shutdown: no more work was canceled than was in flight when the drain
-- began, admission is closed, health is stopped if the resources were closed and otherwise still
-- stopping, and resources that were not closed make the outcome forced.
pub shutdown_result :
    (r s : Runtime) (result : ShutdownResult)
    → Inv r
    → Reach r s
    → s.phase ≡ done result
    → (result.canceled_work ≤ result.initial_in_flight)
      × (s.accepting ≡ false)
      × (s.health.state ≡ (if result.resources_closed then stopped else stopping))
      × ((result.resources_closed ≡ true) ⊎ (result.outcome ≡ forced))
shutdown_result r s result h w e =
    let k = subst (Remembers s.in_flight s.zero_work) e (Reach-Inv h w).remembers in
    let i = Reach-Inv h w in
    (k.0, i.phase_accepting ∙ ap is_accepting e, i.phase_state ∙ ap state_of e, ground arith)

-- Where a shutdown reports that it was graceful or that work was canceled in time, nothing is in
-- flight and the resources are closed, so health is stopped; where it was graceful, no work was
-- canceled.
pub shutdown_complete :
    (r s : Runtime) (result : ShutdownResult)
    → Inv r
    → Reach r s
    → s.phase ≡ done result
    → result.outcome ≢ forced
    → (s.in_flight ≡ [])
      × (result.resources_closed ≡ true)
      × (s.health.state ≡ stopped)
      × ((result.outcome ≡ work_canceled) ⊎ (result.canceled_work ≡ 0))
shutdown_complete r s result h w e not_forced =
    let k = subst (Remembers s.in_flight s.zero_work) e (Reach-Inv h w).remembers in
    let at = (Reach-Inv h w).phase_state ∙ ap state_of e in
    (ground arith, ground arith, ground arith, ground arith)
