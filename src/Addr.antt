-- ===== src/Addr.antt =====
-- The two views of physical memory of kernel/kernel/mm/addr.c: an address is low, or high by an
-- offset that is set once.
pub mod Views
mod Tests
use yaeos.Prelude.{ℕ, Bool, true, false, not, ltb, leb, Outcome, ok, ◌>>=◌, ◌>>◌, kassert}
use yaeos.Word.{◌+w◌, ◌-w◌}

-- The variables `READY` and `OFFSET`.
pub record AddrState : Type 0 where
  pub ready : Bool
  pub offset : ℕ

abbrev pub at_start : AddrState
at_start = record { ready = false; offset = 0 }

unfoldable pub set_offset : AddrState → ℕ → Outcome AddrState
set_offset s offset = do kassert (not s.ready); ok (record { ready = true; offset = offset })

unfoldable pub get_offset : AddrState → Outcome ℕ
get_offset s = do kassert s.ready; ok s.offset

unfoldable pub to_low : AddrState → ℕ → Outcome ℕ
to_low s high_addr = do
  kassert s.ready
  kassert (ltb s.offset high_addr)
  ok (high_addr -w s.offset)

unfoldable pub to_high : AddrState → ℕ → Outcome ℕ
to_high s low_addr = do kassert s.ready; kassert (ltb low_addr s.offset); ok (low_addr +w s.offset)

unfoldable pub is_high : AddrState → ℕ → Outcome Bool
is_high s addr = do kassert s.ready; ok (leb s.offset addr)
