-- ===== src/Thunk.antt =====
-- Thunks and their lazy evaluation (src/thunk): a graph of mutable nodes in a heap.
pub mod Heap
pub mod Env
pub mod Match
pub mod Subst
pub mod Bottom
pub mod Choice
pub mod Eval
pub mod Build
mod Tests
