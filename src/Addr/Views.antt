-- ===== src/Addr/Views.antt =====
-- How the calls of kernel/kernel/mm/addr.c fit together.
use yaeos.Prelude.{ℕ, ◌+◌, ◌^◌, ◌<◌, ◌≡◌, refl, ap, arith, true}
use yaeos.Prelude.{ltb, ◌==◌, if◌then◌else◌, ok, panic, ◌>>=◌}
use yaeos.Word.{◌+w◌, ◌-w◌}
use yaeos.Addr.{AddrState, at_start, set_offset, get_offset, to_low, to_high, is_high}

-- Once the offset is set, and not before, it is what the calls work with, and it cannot be set again.
pub set_offset-get_offset :
    (offset again : ℕ)
    → (get_offset at_start ≡ panic)
      × ((set_offset at_start offset >>= get_offset) ≡ ok offset)
      × ((set_offset at_start offset >>= λ s. set_offset s again) ≡ panic)
unfolding set_offset get_offset
set_offset-get_offset offset again = (refl, refl, refl)

-- A low address whose high one does not wrap: the high one is recognised as high, and goes back to
-- the low one, but for the address 0, at which `addr_to_low` panics.
pub to_low-to_high :
    (s : AddrState) (a : ℕ)
    → s.ready ≡ true
    → a < s.offset
    → a + s.offset < 2 ^ 32
    → ((to_high s a >>= is_high s) ≡ ok true)
      × ((to_high s a >>= to_low s) ≡ (if a == 0 then panic else ok a))
unfolding to_low to_high is_high
to_low-to_high s a r lt fits =
    let sum : a +w s.offset ≡ a + s.offset = omega arith in
    let back : (a + s.offset) -w s.offset ≡ a = omega arith in
    let below : ltb a s.offset ≡ true = ground arith in
    (rw (r, below, sum) (ap ok (ground arith)), rw (r, below, sum) (ground (arith, back)))
