-- ===== src/Health/Failures.antt =====
-- Failing and stale database checks (backend/internal/runtime/health, `recordFailure`,
-- `Snapshot`): how long a runtime is still reported healthy.
use software_engineering_pla.Shared.{
  ℕ, ◌+◌, ◌*◌, ◌≤◌, ◌<◌, ◌≡◌, ◌↔◌, ◌⊎◌, List, [], ◌∷◌, Option, none, some, arith, length, All,
}
use software_engineering_pla.Health.{
  Config, ready, healthy, Monitor, ContextView, live, CheckError, readiness_end, readiness,
  snapshot,
}
use software_engineering_pla.Health.Invariant.{Inv}

-- a check that fails, with the clock as `recordFailure` reads it
pub record FailedCheck : Type 0 where
  pub error : CheckError
  pub now : ℕ
  pub seen : ℕ

unfoldable pub fail_checks : Monitor → List FailedCheck → Monitor
fail_checks m [] = m
fail_checks m (c ∷ cs) = fail_checks (readiness_end m (some c.error) live c.now c.seen).0 cs

-- A ready monitor with this configuration and last success, healthy exactly while its count of
-- failures is below the threshold.
record IsServing (config : Config) (last count : ℕ) (m : Monitor) : Type 0 where
  state : m.state ≡ ready
  same_config : m.config ≡ config
  success : m.last_database_success ≡ last
  failures : m.consecutive_failures ≡ count
  status : (m.readiness.status ≡ healthy) ↔ (count < config.failure_threshold)

module _ (config : Config) (last : ℕ) (some_success : 0 < last) where
  fail_once :
      (m : Monitor) (count : ℕ) (c : FailedCheck)
      → IsServing config last count m
      → c.now ≤ last + 2 * config.check_interval
      → IsServing config last (count + 1) (readiness_end m (some c.error) live c.now c.seen).0
  unfolding readiness_end
  fail_once m count c s f = ground arith

  fails :
      (m : Monitor) (count : ℕ) (cs : List FailedCheck)
      → IsServing config last count m
      → All (λ c. c.now ≤ last + 2 * config.check_interval) cs
      → ((fail_checks m cs).readiness.status ≡ healthy)
        ↔ (count + length cs < config.failure_threshold)
  unfolding fail_checks
  fails m count [] s f = (λ h. omega (arith, s.status.0 h), λ l. s.status.1 (omega arith))
  fails m count (c ∷ cs) s f =
      let rest =
        fails (readiness_end m (some c.error) live c.now c.seen).0 (count + 1) cs
          (fail_once m count c s f.0) f.1 in
      (λ h. omega (arith, rest.0 h), λ l. rest.1 (omega arith))

-- The failure grace is exact. After a successful check, checks that all fail while that success is
-- at most two intervals old leave the runtime healthy if and only if they are fewer than the
-- configured threshold; a threshold of 0 is excluded.
pub fail_checks_grace :
    (m : Monitor) (now seen : ℕ) (cs : List FailedCheck)
    → m.state ≡ ready
    → 0 < now
    → 0 < m.config.failure_threshold
    → All (λ c. c.now ≤ now + 2 * m.config.check_interval) cs
    → ((fail_checks (readiness_end m none live now seen).0 cs).readiness.status ≡ healthy)
      ↔ (length cs < m.config.failure_threshold)
fail_checks_grace m now seen cs r pos t f =
    let counted = fails m.config now pos (readiness_end m none live now seen).0 0 cs start f in
    (λ h. omega (arith, counted.0 h), λ l. counted.1 (omega arith))
  where
    start : IsServing m.config now 0 (readiness_end m none live now seen).0
    start = unfold readiness_end in ground arith

-- the last success is the zero time, or at most two intervals old
abbrev pub IsRecent : Monitor → ℕ → Type 0
IsRecent m now =
    (m.last_database_success ≡ 0) ⊎ (now ≤ m.last_database_success + 2 * m.config.check_interval)

-- `Snapshot` by itself: where it reports healthy, the runtime is ready and its last success is the
-- zero time or at most two intervals old.
pub snapshot-IsRecent :
    (m : Monitor) (now seen : ℕ)
    → Inv m
    → (snapshot m now seen).1.readiness.status ≡ healthy
    → ((snapshot m now seen).0.state ≡ ready) × IsRecent (snapshot m now seen).0 now
unfolding snapshot
snapshot-IsRecent m now seen inv h = ground arith

-- `Readiness` never answers healthy on old evidence, in any context and on any result of the check:
-- where a monitor that keeps the invariant does answer healthy, the runtime is ready and its last
-- successful check is the zero time or at most two check intervals old.
pub readiness-IsRecent :
    (m : Monitor) (ctx still : ContextView) (result : Option CheckError) (now seen : ℕ)
    → Inv m
    → (readiness m ctx result still now seen).1.readiness.status ≡ healthy
    → ((readiness m ctx result still now seen).0.state ≡ ready)
      × IsRecent (readiness m ctx result still now seen).0 now
unfolding readiness
readiness-IsRecent m ctx still none now seen inv h = ground arith
readiness-IsRecent m ctx still (some e) now seen inv h = ground arith
