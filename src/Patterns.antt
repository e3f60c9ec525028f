-- ===== src/Patterns.antt =====
-- src/patterns: the check that the patterns of a `case`, or of a binding, cover every value.
--
-- `Ctors` is ctors.rs, `Pat` and `Missing` are pat.rs, `Convert` is convert.rs. `Values` says what a
-- value of a type is and when a pattern matches it.
pub mod Ctors
pub mod Pat
pub mod Missing
pub mod Convert
pub mod Values
pub mod Source
pub mod Inhabited
pub mod Covered
pub mod Visit
mod Tests
