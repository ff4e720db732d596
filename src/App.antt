-- ===== src/App.antt =====
-- The application runtime: backend/internal/runtime/app (implementation.go, model.go).
--
-- `App.Start` models startup with its cleanup; `App.Work` the admission of work; `App.Shutdown` the
-- drain that one goroutine runs while admissions, releases and health checks go on. The channels
-- `zeroWork` that `Admit` makes are numbers, and `closed` tells which are closed.
pub mod Work
pub mod Start
pub mod Startup
pub mod Shutdown
pub mod Safety
pub mod Progress
pub mod Samples
