-- ===== src/Rie.antt =====
-- The repository intelligence engines (backend/rie): the ignore engine and the pipeline.
pub mod Glob
pub mod Rules
pub mod Run
pub mod Ignore
pub mod Pipeline
mod Samples
