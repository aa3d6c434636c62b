-- ===== src/Printf.antt =====
-- The formatted output of kernel/lib/cstd/stdio/vfprintf.c.
pub mod Spec
pub mod Args
pub mod Convert
pub mod Print
pub mod Digits
pub mod DigitCount
pub mod Sink
pub mod Body
pub mod Loops
pub mod Shown
pub mod Stages
pub mod Layout
pub mod Field
pub mod Format
pub mod Shorter
pub mod Render
pub mod Ends
pub mod Numeral
pub mod Passed
pub mod Notation
pub mod ParseBack
pub mod RoundTrip
mod Tests
