-- ===== src/Runtime.antt =====
-- The state that the interpreter keeps while it runs (src/runtime).
pub mod Effects
pub mod Modules
mod Tests
