-- ===== src/CoreIr.antt =====
-- The Core IR (src/coreir): its data model, validator, kind check, evaluator, lowering and text form.
pub mod Syntax
pub mod Effects
pub mod Kind
pub mod Lower
pub mod Runtime
pub mod Eval
pub mod Text
mod Tests
