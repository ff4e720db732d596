-- ===== src/Scan.antt =====
-- Execution of a scan: backend/service/repository/scan.
--
-- `Scan.Errors` has the mapping of errors and contexts (errors.go), `Scan.Model` the values (model.go),
-- `Scan.Publication` and `Scan.Execute` the run of one flight, and `Scan.Service` the other handlers
-- (implementation.go).
pub mod Errors
pub mod Model
pub mod Publication
pub mod Execute
pub mod Protocol
pub mod Terminal
pub mod Outcomes
pub mod Service
pub mod Flights
pub mod Analysis
pub mod Handlers
mod Samples
