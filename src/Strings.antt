-- ===== src/Strings.antt =====
-- The string and memory functions of kernel/lib/cstd/string. A pointer into memory is the list of
-- the bytes from it on; a read or a write past the end of the list is a fault.
pub mod Length
pub mod Compare
pub mod Memory
mod Tests
use yaeos.Prelude.{ℕ, zero, suc, ◌-◌, ◌%◌, Bool, true, false, ltb, ◌==◌, ◌&&◌, not}
use yaeos.Prelude.{Option, none, some, List, [], ◌∷◌, if◌then◌else◌, Outcome, ok, fault, ◌>>=◌}
use yaeos.Prelude.{ℤ, pos, negsuc, is_int, diff}
use yaeos.Word.{◌+w◌}

-- The loop of `kstrlen` at index `i`.
unfoldable pub strlen_from : List ℕ → ℕ → Outcome ℕ
strlen_from [] i = fault
strlen_from (b ∷ bs) i = if b == 0 then ok i else strlen_from bs (i +w 1)

unfoldable pub kstrlen : List ℕ → Outcome ℕ
kstrlen str = strlen_from str 0

unfoldable pub kstrcmp : List ℕ → List ℕ → Outcome ℤ
kstrcmp (l ∷ lhs) (r ∷ rhs) = if not (l == 0) && l == r then kstrcmp lhs rhs else ok (diff l r)
kstrcmp [] rhs = fault
kstrcmp (l ∷ lhs) [] = fault

-- The test of `n > 0` comes first, but the last line reads both characters in any case.
unfoldable pub kstrncmp : List ℕ → List ℕ → ℕ → Outcome ℤ
kstrncmp (l ∷ lhs) (r ∷ rhs) zero = ok (diff l r)
kstrncmp (l ∷ lhs) (r ∷ rhs) (suc n) =
    if not (l == 0) && l == r then kstrncmp lhs rhs n else ok (diff l r)
kstrncmp [] rhs n = fault
kstrncmp (l ∷ lhs) [] n = fault

-- The value of a `char`, which is signed on i686.
abbrev pub char_value : ℕ → ℤ
char_value b = if ltb b 128 then pos b else negsuc (255 - b)

abbrev pub same_int : ℤ → ℤ → Bool
same_int (pos a) (pos b) = a == b
same_int (negsuc a) (negsuc b) = a == b
same_int (pos a) (negsuc b) = false
same_int (negsuc a) (pos b) = false

-- The loop of `kstrchr` after `i` characters; the result is how far the found one is, or NULL.
unfoldable pub strchr_from : List ℕ → ℤ → ℕ → Outcome (Option ℕ)
strchr_from [] c i = fault
strchr_from (b ∷ bs) c i =
    let rest = strchr_from bs c (suc i) in
    if b == 0 then ok none else if same_int (char_value b) c then ok (some i) else rest

unfoldable pub kstrchr : List ℕ → ℤ → Outcome (Option ℕ)
kstrchr s c = strchr_from s c 0

-- `kmemcpy`: the memory at `dest` after the call, which `src` does not overlap.
unfoldable pub kmemcpy : List ℕ → List ℕ → ℕ → Outcome (List ℕ)
kmemcpy dest src zero = ok dest
kmemcpy (d ∷ dest) (s ∷ src) (suc n) = kmemcpy dest src n >>= λ rest. ok (s ∷ rest)
kmemcpy [] src (suc n) = fault
kmemcpy (d ∷ dest) [] (suc n) = fault

-- `kmemset`: the memory after the call, with the value cut to a byte.
unfoldable pub kmemset : List ℕ → ℕ → ℕ → Outcome (List ℕ)
kmemset data_ val zero = ok data_
kmemset (d ∷ data_) val (suc len) = kmemset data_ val len >>= λ rest. ok (val % 256 ∷ rest)
kmemset [] val (suc len) = fault
