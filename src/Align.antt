-- ===== src/Align.antt =====
-- lib/align.h
use yaeos.Prelude.{ℕ, ◌-◌, bit_and, Bool, ◌==◌, if◌then◌else◌}
use yaeos.Word.{◌+w◌, ◌-w◌, neg}
pub mod Bounds
mod Tests

unfoldable pub align_roundup : ℕ → ℕ → ℕ
align_roundup from alignment =
    if alignment == 0 then from else bit_and (from +w (alignment -w 1)) (neg alignment)

unfoldable pub align_rounddown : ℕ → ℕ → ℕ
align_rounddown from alignment = if alignment == 0 then from else bit_and from (neg alignment)

unfoldable pub check_align : ℕ → ℕ → Bool
unfolding align_rounddown
check_align value alignment = value == align_rounddown value alignment
