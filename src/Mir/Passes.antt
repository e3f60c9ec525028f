-- ===== src/Mir/Passes.antt =====
-- src/mir/passes: the passes over a body.
pub mod Unreachable
pub mod Simplify
pub mod UnusedLocals
pub mod DeadStore
pub mod ZeroSized
