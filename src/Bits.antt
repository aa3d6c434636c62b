-- ===== src/Bits.antt =====
-- Binary digits of machine words: the facts about `&`, `|`, `^` and `~` that the code relies on.
pub mod Digits
pub mod Test
pub mod Mask
pub mod Shift
