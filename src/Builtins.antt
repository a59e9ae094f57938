-- ===== src/Builtins.antt =====
-- The builtins of src/builtins that the evaluator of thunks calls.
pub mod Args
pub mod Arith
pub mod Seq
pub mod Table
pub mod Keeps
pub mod Whole
pub mod Sum
pub mod Order
mod Tests
