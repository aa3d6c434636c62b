-- ===== src/Buddy/Space.antt =====
-- `buddy_predict_req_space`: the bytes that the bitmaps of the levels take.
use native.Mathlib.Nat.{div-le_self}
use yaeos.Prelude.{ℕ, zero, suc, ◌+◌, ◌-◌, ◌*◌, ◌/◌, ◌^◌, ◌≤◌, ◌<◌, ◌≡◌, arith, refl, ap}
use yaeos.Prelude.{ok, >>=-ok, length}
use yaeos.Word.{◌+w◌}
use yaeos.Utils.{div_ceil}
use yaeos.Utils.Log2.{div_ceil_lem}
use yaeos.Bitmap
use yaeos.Bitmap.{Bitmap}
use yaeos.Bitmap.Bit.{AreWords}
use yaeos.Bitmap.Resize.{predict_size_lem}
use yaeos.Buddy.{get_max_index, predict_bitmaps, words_at}

-- The bytes that the bitmap of one level takes, and those of `rounds` levels from `lvl` on.
unfoldable pub level_bytes : ℕ → ℕ → ℕ
level_bytes pages lvl = div_ceil (pages / 2 ^ lvl) 32 * 4

unfoldable pub bytes : ℕ → ℕ → ℕ → ℕ
bytes pages lvl zero = 0
bytes pages lvl (suc rounds) = level_bytes pages lvl + bytes pages (suc lvl) rounds

level_bytes-le : (pages lvl : ℕ) → pages ≤ 2 ^ 20 → level_bytes pages lvl ≤ 2 ^ 18
unfolding level_bytes
level_bytes-le pages lvl h =
    let le = div-le_self pages (2 ^ lvl) in
    let b = div_ceil_lem (pages / 2 ^ lvl) 32 (omega arith) (omega arith) in omega arith

pub bytes-le : (pages lvl rounds : ℕ) → pages ≤ 2 ^ 20 → bytes pages lvl rounds ≤ rounds * 2 ^ 18
unfolding bytes
bytes-le pages lvl zero h = omega arith
bytes-le pages lvl (suc rounds) h =
    omega (arith, level_bytes-le pages lvl h, bytes-le pages (suc lvl) rounds h)

-- Every level up to `lvl` has a chunk.
abbrev pub HasChunk : ℕ → ℕ → ℕ → Type 0
HasChunk pages lvl zero = Unit {0}
HasChunk pages lvl (suc rounds) = (0 < pages / 2 ^ lvl) × HasChunk pages (suc lvl) rounds

pub get_max_index_lem :
    (pages lvl : ℕ)
    → pages ≤ 2 ^ 20
    → 0 < pages / 2 ^ lvl
    → (get_max_index pages lvl ≡ ok (pages / 2 ^ lvl - 1))
      × (pages / 2 ^ lvl - 1 +w 1 ≡ pages / 2 ^ lvl)
      × (Bitmap.predict_size (pages / 2 ^ lvl) ≡ ok (level_bytes pages lvl))
unfolding get_max_index level_bytes
get_max_index_lem pages lvl h pos =
    let le = div-le_self pages (2 ^ lvl) in
    (ground arith, omega arith, predict_size_lem (pages / 2 ^ lvl) pos (omega arith))

pub predict_bitmaps_lem :
    (pages i rounds acc : ℕ)
    → pages ≤ 2 ^ 20
    → HasChunk pages i rounds
    → acc + bytes pages i rounds < 2 ^ 32
    → predict_bitmaps pages i rounds acc ≡ ok (acc + bytes pages i rounds)
unfolding predict_bitmaps bytes
predict_bitmaps_lem pages i zero acc h c fits = ap ok (omega arith)
predict_bitmaps_lem pages i (suc rounds) acc h (pos, c) fits =
    let (e₁, e₂, e₃) = get_max_index_lem pages i h pos in
    let sum : acc +w level_bytes pages i ≡ acc + level_bytes pages i = omega arith in
    let rest =
      predict_bitmaps_lem pages (suc i) rounds (acc + level_bytes pages i) h c (omega arith) in
    >>=-ok _ e₁ (rw e₂ (>>=-ok _ e₃ (rw (sum, rest) (ap ok (omega arith)))))

pub words_at_lem :
    (memory : ℕ → ℕ) (p n : ℕ)
    → ((a : ℕ) → memory a < 2 ^ 32)
    → (length (words_at memory p n) ≡ n) × AreWords (words_at memory p n)
unfolding words_at
words_at_lem memory p zero h = (refl, tt)
words_at_lem memory p (suc n) h =
    let (len, ws) = words_at_lem memory (p + 4) n h in (ap suc len, (h p, ws))

pub level_bytes-div : (pages lvl : ℕ) → level_bytes pages lvl / 4 ≡ div_ceil (pages / 2 ^ lvl) 32
unfolding level_bytes
level_bytes-div pages lvl = omega arith
