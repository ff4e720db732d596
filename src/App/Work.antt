-- ===== src/App/Work.antt =====
-- The runtime's state, and the admission and release of work (backend/internal/runtime/app,
-- `Admit`, `release`, `cancelWork`, `Force`).
use software_engineering_pla.Shared.{
  ℕ, ◌+◌, ◌%◌, ◌^◌, Bool, true, false, not, List, [], ◌∷◌, ◌++◌, ◌==◌, if◌then◌else◌, length,
}
use software_engineering_pla.Health.{Monitor, ContextView, nil_context, live, ended, expired}

pub data ErrorCode : Type 0 where
  invalid_input canceled draining startup timeout internal : ErrorCode

-- what `errors.Is` finds in the cause of an error
pub data Cause : Type 0 where
  other is_canceled is_deadline_exceeded : Cause

-- the code that `newError` gives
unfoldable pub new_error : ErrorCode → Cause → ErrorCode
new_error code is_canceled = canceled
new_error code is_deadline_exceeded = timeout
new_error code other = code

pub data ShutdownOutcome : Type 0 where
  graceful work_canceled forced : ShutdownOutcome

pub record ShutdownResult : Type 0 where
  pub outcome : ShutdownOutcome
  pub initial_in_flight : ℕ
  pub canceled_work : ℕ
  pub resources_closed : Bool

-- Where the goroutine of `runShutdown` stands; `serving` before `shutdownOnce` has fired.
pub data Phase : Type 0 where
  serving : Phase
  -- health is draining, admission is still open
  announced : Phase
  -- the first `select`, with `initial` and the channel it waits for
  waiting : ℕ → ℕ → Phase
  -- after it, with `initial`, the outcome and `canceledWork`
  settled : ℕ → ShutdownOutcome → ℕ → Phase
  -- the second `select`, with the channel read again
  canceling : ℕ → ShutdownOutcome → ℕ → ℕ → Phase
  closing : ℕ → ShutdownOutcome → ℕ → Phase
  -- `shutdownDone` is closed
  done : ShutdownResult → Phase

-- `in_flight` is the key set of the map `inFlight`; `contexts_canceled` are the work identifiers
-- whose cancel function has been called.
pub record Runtime : Type 0 where
  pub health : Monitor
  pub accepting : Bool
  pub next_work_id : ℕ
  pub in_flight : List ℕ
  pub contexts_canceled : List ℕ
  pub zero_work : ℕ
  pub closed : ℕ → Bool
  pub next_channel : ℕ
  pub force : Bool
  pub phase : Phase

abbrev pub contains : List ℕ → ℕ → Bool
contains [] a = false
contains (x ∷ xs) a = if x == a then true else contains xs a

-- a map's key set after `m[id] = ...` and after `delete(m, id)`
abbrev pub insert : ℕ → List ℕ → List ℕ
insert id ids = if contains ids id then ids else id ∷ ids

abbrev pub delete : ℕ → List ℕ → List ℕ
delete id [] = []
delete id (x ∷ xs) = let rest = delete id xs in if x == id then rest else x ∷ rest

abbrev pub is_empty : List ℕ → Bool
is_empty [] = true
is_empty (_ ∷ _) = false

abbrev pub close : (ℕ → Bool) → ℕ → ℕ → Bool
close closed c d = if c == d then true else closed d

-- `make(chan struct{})`, for the field `zeroWork`
make_zero_work : Runtime → Runtime
make_zero_work r = record r { zero_work = r.next_channel; next_channel = r.next_channel + 1 }

pub data Admission : Type 0 where
  admitted : ℕ → Admission
  refused : ErrorCode → Admission

admit_locked : Runtime → Runtime × Admission
unfolding make_zero_work
admit_locked r =
    if not r.accepting
    then (r, refused draining)
    else let s = if is_empty r.in_flight then make_zero_work r else r in
      let id = (s.next_work_id + 1) % 2 ^ 64 in
      (record s { next_work_id = id; in_flight = insert id s.in_flight }, admitted id)

unfoldable pub admit : Runtime → ContextView → Runtime × Admission
unfolding admit_locked new_error
admit r nil_context = (r, refused invalid_input)
admit r ended = (r, refused (new_error canceled is_canceled))
admit r expired = (r, refused (new_error canceled is_deadline_exceeded))
admit r live = admit_locked r

-- What `release` does: `close` of a closed channel is a panic.
pub data Release : Type 0 where
  released : Runtime → Release
  panicked : Release

close_zero_work : Runtime → Release
close_zero_work r =
    if r.closed r.zero_work
    then panicked
    else released (record r { closed = close r.closed r.zero_work })

-- `delete(runtime.inFlight, id)` and `cancel()`
drop_work : ℕ → Runtime → Runtime
drop_work id r = record r {
  in_flight = delete id r.in_flight;
  contexts_canceled = id ∷ r.contexts_canceled;
}

unfoldable pub release : Runtime → ℕ → Release
unfolding close_zero_work drop_work
release r id =
    if not (contains r.in_flight id)
    then released r
    else let s = drop_work id r in if is_empty s.in_flight then close_zero_work s else released s

unfoldable pub cancel_work : Runtime → Runtime × ℕ
cancel_work r =
    (record r { contexts_canceled = r.in_flight ++ r.contexts_canceled }, length r.in_flight)

-- `forceOnce` makes a second call do nothing
unfoldable pub request_force : Runtime → Runtime
request_force r = record r { force = true }
