-- ===== src/Common.antt =====
-- The containers and scalar types of src/common that the rest of the program is built on.
pub mod Str
pub mod Hash
pub mod LsInt
pub mod LsList
mod Tests
