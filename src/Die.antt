-- ===== src/Die.antt =====
-- The dependency intelligence engine: backend/die.
--
-- `Die.Text` and `Die.Path` are the text functions that it uses, `Die.Model` its values, errors and
-- limits, `Die.Evidence`, `Die.Identity` and `Die.Normalize` the normalization of graph input
-- (implementation.go), `Die.Limits` the analysis settings (analysis_config.go), `Die.Graph` the index
-- of an inventory (analysis.go), `Die.Direct` the pages of direct neighbours and `Die.Impact` the
-- bounded traversal (analysis_query.go).
pub mod Text
pub mod Path
pub mod Model
pub mod Evidence
pub mod Identity
pub mod Normalize
pub mod Limits
pub mod Graph
pub mod Direct
pub mod Impact
