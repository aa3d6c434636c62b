-- ===== src/Addr/Tests.antt =====
-- The views of kernel/kernel/mm/addr.c at a concrete offset.
use yaeos.Prelude.{◌≡◌, refl, arith, true, ◌==◌, if◌then◌else◌, ok, panic, ◌>>=◌}
use yaeos.Addr.{AddrState, to_low, to_high, is_high}
use yaeos.Addr.Views.{to_low-to_high}

-- High memory begins at 3 GiB.
abbrev upper_half : AddrState
upper_half = record { ready = true; offset = 3221225472 }

to_low-to_high_example :
    ((to_high upper_half 4096 >>= is_high upper_half) ≡ ok true)
    × ((to_high upper_half 4096 >>= to_low upper_half) ≡ (if 4096 == 0 then panic else ok 4096))
to_low-to_high_example = to_low-to_high upper_half 4096 refl (omega arith) (omega arith)
