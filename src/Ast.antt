-- ===== src/Ast.antt =====
-- The syntax tree of src/expr and src/pat, which the parser builds.
pub mod Pattern
pub mod Syntax
