-- ===== src/Health/Invariant.antt =====
-- What a reader of the monitor (backend/internal/runtime/health) can rely on between operations.
use software_engineering_pla.Shared.{◌<◌, ◌≡◌, ◌⊎◌, Bool, arith}
use software_engineering_pla.Health.{
  new, loading, validating, connecting, compatibility_checking, ready, draining, stopping, stopped,
  failed, healthy, unhealthy, unknown, runtime_starting, runtime_ready, runtime_draining,
  runtime_stopping, runtime_stopped, readiness_failure_grace, signal, Config, ok, Monitor,
  new_monitor, transition, snapshot, readiness_begin, readiness_end,
}
use software_engineering_pla.Health.Lifecycle.{
  Step, transit, observe, begin, finish, Reach, here, then,
}

abbrev pub IsStarting : Monitor → Type 0
IsStarting m =
    (m.state ≡ new)
    ⊎ (m.state ≡ loading)
    ⊎ (m.state ≡ validating)
    ⊎ (m.state ≡ connecting)
    ⊎ (m.state ≡ compatibility_checking)

pub record Inv (m : Monitor) : Type 0 where
  -- readiness is known exactly from the ready state on
  pub starting : IsStarting m → m.readiness ≡ signal unknown runtime_starting
  pub known : m.readiness.status ≡ unknown → IsStarting m
  -- only a ready runtime is healthy, and after fewer failures than the threshold
  pub healthy_ready : m.readiness.status ≡ healthy → m.state ≡ ready
  pub healthy_reason :
      m.readiness.status ≡ healthy
      → (m.readiness.reason ≡ runtime_ready) ⊎ (m.readiness.reason ≡ readiness_failure_grace)
  pub healthy_failures :
      m.readiness.status ≡ healthy → m.consecutive_failures < m.config.failure_threshold
  -- once it leaves, the reason is that of the state
  pub drains : m.state ≡ draining → m.readiness ≡ signal unhealthy runtime_draining
  pub stops : m.state ≡ stopping → m.readiness ≡ signal unhealthy runtime_stopping
  pub ended : m.state ≡ stopped → m.readiness ≡ signal unhealthy runtime_stopped
  pub failing : m.state ≡ failed → m.readiness.status ≡ unhealthy
  pub threshold : 0 < m.config.failure_threshold
  pub in_step : m.last_database_success ≡ m.last_compatibility_success

new_monitor-Inv : (c : Config) (b : Bool) (m : Monitor) → new_monitor b c ≡ ok m → Inv m
unfolding new_monitor
new_monitor-Inv c b m h = ground arith

Step-Inv : {m n : Monitor} → Step m n → Inv m → Inv n
unfolding transition snapshot readiness_begin readiness_end
Step-Inv (transit next now) h = ground arith
Step-Inv (observe now seen) h = ground arith
Step-Inv (begin ctx now seen) h = ground arith
Step-Inv (finish error still now seen) h = ground arith

Reach-keeps : {m n : Monitor} → Inv m → Reach m n → Inv n
Reach-keeps h here = h
Reach-keeps h (then r s) = Step-Inv s (Reach-keeps h r)

-- Every monitor that a constructed monitor can become, by any operations in any order, satisfies
-- the invariant.
pub Reach-Inv : (c : Config) (b : Bool) {m n : Monitor} → new_monitor b c ≡ ok m → Reach m n → Inv n
Reach-Inv c b {m} h r = Reach-keeps (new_monitor-Inv c b m h) r
