-- ===== src/CoreIr/Text.antt =====
-- The text form of the Core IR: how it is printed (src/coreir/cir_lower_print.c), and how it is read
-- (src/coreir/cir_text_reader.c).
pub mod Lexer
pub mod Patterns
pub mod Reader
pub mod Printer
pub mod Words
pub mod Printable
pub mod RoundTrip
pub mod Program
mod Tests
