-- ===== src/Mir.antt =====
-- src/mir: the intermediate representation and what is done with it.
pub mod Syntax
pub mod Places
pub mod Graph
pub mod Runs
pub mod Visit
pub mod Passes
mod Tests
