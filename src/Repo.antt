-- ===== src/Repo.antt =====
-- The contract of the repository service: backend/service/repository.
--
-- `Repo.Errors` has the neutral errors (errors.go), `Repo.Values` the immutable values (model.go),
-- `Repo.Valid` their checks, `Repo.Contract` the constructors, `Repo.Profiles` the registry of
-- profiles (implementation.go), and `Repo.Settings` the limits (config.go).
pub mod Errors
pub mod Values
pub mod Valid
pub mod Contract
pub mod Framing
pub mod Profiles
pub mod Settings
pub mod Accepted
mod Samples
