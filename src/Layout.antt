-- ===== src/Layout.antt =====
-- src/layout/mod.rs: the size, the alignment and the placement in memory of a value of a type.
--
-- `Size`, `Scalar` and the layouts are in `Defs`; `Aggregate` and `Variant` place fields and cases,
-- `Of` is `calculate_layout`. The other children prove what the placement keeps.
pub mod Defs
pub mod Size
pub mod Aggregate
pub mod Variant
pub mod Of
mod Tests
