-- ===== src/Word.antt =====
-- Machine words of the i686 kernel: `size_t`, `uintptr_t` and `unsigned` have 32 bits. A word is a
-- number, and each operation of C that can wrap is written with its `% 2 ^ 32`.
use yaeos.Prelude.{ℕ, ◌+◌, ◌-◌, ◌*◌, ◌/◌, ◌%◌, ◌^◌}

infixl 65 ◌+w◌ ◌-w◌
infixl 70 ◌*w◌
-- `a + b`, `a - b`, `a * b` in unsigned arithmetic.
abbrev pub ◌+w◌ : ℕ → ℕ → ℕ
a +w b = (a + b) % 2 ^ 32

abbrev pub ◌-w◌ : ℕ → ℕ → ℕ
a -w b = (a + (2 ^ 32 - b)) % 2 ^ 32

abbrev pub ◌*w◌ : ℕ → ℕ → ℕ
a *w b = (a * b) % 2 ^ 32

-- `-a` and `~a`.
abbrev pub neg : ℕ → ℕ
neg a = (2 ^ 32 - a) % 2 ^ 32

abbrev pub complement : ℕ → ℕ
complement a = 2 ^ 32 - 1 - a

-- `a << k` and `a >> k`, for `k` below the width.
abbrev pub shl : ℕ → ℕ → ℕ
shl a k = (a * 2 ^ k) % 2 ^ 32

abbrev pub shr : ℕ → ℕ → ℕ
shr a k = a / 2 ^ k
