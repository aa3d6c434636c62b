-- ===== src/Cbuffer/Tests.antt =====
-- The ring buffer of kernel/include/lib/ds/cbuffer.h at a concrete buffer.
use yaeos.Prelude.{ℕ, ◌≡◌, ◌⊎◌, refl, arith, ltb, [], ◌∷◌, ◌++◌, length, if◌then◌else◌, ok}
use yaeos.Cbuffer
use yaeos.Cbuffer.{push, pop}
use yaeos.Cbuffer.Queue.{IsValid, contents, push_lem, pop_lem}

-- Three places, with two values around the end of the array.
abbrev around : Cbuffer.Cbuffer
around = record { r_idx = 2; w_idx = 1; count = 2; array = 8 ∷ 9 ∷ 7 ∷ [] }

around-IsValid : IsValid around
around-IsValid = record {
  some_room = omega arith;
  small = omega arith;
  reads_inside = omega arith;
  fits = omega arith;
  writes_after = refl;
}

around-contents : contents around ≡ 7 ∷ 8 ∷ []
around-contents = refl

push_lem_example :
    (b' : Cbuffer.Cbuffer) × (push around 5 ≡ ok (ltb around.count (length around.array), b'))
    × IsValid b'
    × (length b'.array ≡ length around.array)
    × (contents b' ≡ (
        if ltb around.count (length around.array)
        then contents around ++ 5 ∷ []
        else contents around))
push_lem_example = push_lem around 5 around-IsValid

pop_lem_example :
    (b' : Cbuffer.Cbuffer) × (v : ℕ) × (pop around 0 ≡ ok (v, b'))
    × IsValid b'
    × (length b'.array ≡ length around.array)
    × ((contents around ≡ []) × (v ≡ 0) × (b' ≡ around) ⊎ (contents around ≡ v ∷ contents b'))
pop_lem_example = pop_lem around 0 around-IsValid
