-- ===== src/Cbuffer.antt =====
-- The ring buffer of kernel/include/lib/ds/cbuffer.h, with numbers for its values.
pub mod Places
pub mod Queue
mod Tests
use yaeos.Prelude.{ℕ, ◌%◌, Bool, true, false, ltb, ◌==◌, List, length, set, get_elem?, replicate}
use yaeos.Prelude.{if◌then◌else◌, Outcome, ok, ◌>>=◌, access}
use yaeos.Word.{◌+w◌, ◌-w◌}

-- `CBUFFER_DECLARE`
pub record Cbuffer : Type 0 where
  pub r_idx : ℕ
  pub w_idx : ℕ
  pub count : ℕ
  pub array : List ℕ

-- `CBUFFER_INIT` on a buffer whose array is given; its memory becomes zero.
unfoldable pub init : List ℕ → Cbuffer
init array = record { r_idx = 0; w_idx = 0; count = 0; array = replicate (length array) 0 }

-- `CBUFFER_NEXT_WIDX` and `CBUFFER_NEXT_RIDX`
unfoldable pub next_widx : Cbuffer → ℕ
next_widx b = (b.w_idx +w 1) % length b.array

unfoldable pub next_ridx : Cbuffer → ℕ
next_ridx b = (b.r_idx +w 1) % length b.array

-- `CBUFFER_PUSH`: the value of the expression, and the buffer after it.
unfoldable pub push : Cbuffer → ℕ → Outcome (Bool × Cbuffer)
push b value =
    let success = ltb b.count (length b.array) in
    let written = access (get_elem? b.array b.w_idx) >>= λ _. ok (
      success,
      record b { array = set b.array b.w_idx value; w_idx = next_widx b; count = b.count +w 1 },
    ) in
    if b.count == length b.array then ok (success, b) else written

-- `CBUFFER_POP`: the value that goes to `dest`, and the buffer after it.
unfoldable pub pop : Cbuffer → ℕ → Outcome (ℕ × Cbuffer)
pop b defaultval =
    let read = access (get_elem? b.array b.r_idx) >>= λ value.
    ok (value, record b { r_idx = next_ridx b; count = b.count -w 1 }) in
    if b.count == 0 then ok (defaultval, b) else read
