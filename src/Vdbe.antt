-- ===== src/Vdbe.antt =====
-- src/vdbe: the type affinities and the three-valued logic of SQL expressions.
pub mod Affinity
pub mod Logic
pub mod Floats
pub mod Numbers
pub mod Coerce
pub mod Aggregate
pub mod Machine
pub mod Execution
pub mod Compare
mod Runs
