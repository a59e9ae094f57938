-- ===== src/Image.antt =====
-- Images of thunks, src/thunk/lsti.c.
pub mod Words
pub mod Sections
pub mod Entries
pub mod Validate
pub mod Within
pub mod Fits
pub mod Bounds
pub mod Safe
mod Tests
