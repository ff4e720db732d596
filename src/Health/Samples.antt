-- ===== src/Health/Samples.antt =====
-- Runs of the health monitor (backend/internal/runtime/health), and the theorems at them.
use software_engineering_pla.Shared.{◌≡◌, refl, true, false, none, some, List, [], ◌∷◌, arith}
use software_engineering_pla.Shared.Int.{pos, negsuc}
use software_engineering_pla.Health.{
  new, loading, validating, connecting, compatibility_checking, ready, draining, stopped, healthy,
  unknown, signal, runtime_starting, runtime_ready, readiness_failure_grace, invalid_config, Config,
  Monitor, CheckError, ok, err, live, new_config, new_monitor, transition, snapshot, readiness,
  readiness_end,
}
use software_engineering_pla.Health.Lifecycle.{transit, Reach, here, then}
use software_engineering_pla.Health.Invariant.{Inv, Reach-Inv}
use software_engineering_pla.Health.Failures.{
  FailedCheck, fail_checks, IsRecent, snapshot-IsRecent, readiness-IsRecent,
}

abbrev config : Config
config = record {
  check_timeout = 1000000;
  check_interval = 5000000;
  failure_threshold = 3;
  has_clock = true;
}

accepted :
    new_config (record {
      check_timeout = pos 1000000;
      check_interval = pos 5000000;
      failure_threshold = pos 3;
    })
    ≡ ok config
unfolding new_config
accepted = refl

negative_timeout :
    new_config
      (record { check_timeout = negsuc 0; check_interval = pos 5000000; failure_threshold = pos 3 })
    ≡ err invalid_config
unfolding new_config
negative_timeout = refl

abbrev fresh : Monitor
fresh = record {
  config = config;
  state = new;
  readiness = signal unknown runtime_starting;
  last_database_success = 0;
  last_compatibility_success = 0;
  consecutive_failures = 0;
}

abbrev serving : Monitor
serving = record {
  config = config;
  state = ready;
  readiness = signal healthy runtime_ready;
  last_database_success = 1000;
  last_compatibility_success = 1000;
  consecutive_failures = 0;
}

abbrev checking : Monitor
checking = record fresh { state = compatibility_checking }

constructed : new_monitor true config ≡ ok fresh
unfolding new_monitor
constructed = refl

to_checking : Reach fresh checking
unfolding transition
to_checking =
    then (then (then (then here (transit loading 1)) (transit validating 2)) (transit connecting 3))
      (transit compatibility_checking 4)

to_serving : Reach fresh serving
unfolding transition
to_serving = then to_checking (transit ready 1000)

Reach-Inv_example : Inv serving
Reach-Inv_example = Reach-Inv config true constructed to_serving

abbrev drained : Monitor
drained = (transition serving draining 2000).0

to_stopped : Reach drained (transition drained stopped 3000).0
to_stopped = then here (transit stopped 3000)

abbrev timeout : CheckError
timeout = record { is_canceled = false; is_deadline_exceeded = true; health_reason = none }

abbrev two_failures : List FailedCheck
two_failures =
    record { error = timeout; now = 3000; seen = 3001 }
    ∷ record { error = timeout; now = 4000; seen = 4001 }
    ∷ []

graced : (fail_checks serving two_failures).readiness ≡ signal healthy readiness_failure_grace
unfolding fail_checks readiness_end
graced = refl

serving-Inv : Inv serving
serving-Inv = ground arith

snapshot_healthy : (snapshot serving 2000 2001).1.readiness.status ≡ healthy
unfolding snapshot
snapshot_healthy = refl

snapshot-IsRecent_example :
    ((snapshot serving 2000 2001).0.state ≡ ready) × IsRecent (snapshot serving 2000 2001).0 2000
snapshot-IsRecent_example = snapshot-IsRecent serving 2000 2001 serving-Inv snapshot_healthy

readiness_healthy :
    (readiness serving live (some timeout) live 3000 3001).1.readiness.status ≡ healthy
unfolding readiness
readiness_healthy = refl

readiness-IsRecent_example :
    ((readiness serving live (some timeout) live 3000 3001).0.state ≡ ready)
    × IsRecent (readiness serving live (some timeout) live 3000 3001).0 3000
readiness-IsRecent_example =
    readiness-IsRecent serving live live (some timeout) 3000 3001 serving-Inv readiness_healthy
