-- ===== src/Cbuffer/Queue.antt =====
-- The ring buffer of kernel/include/lib/ds/cbuffer.h as a queue.
use native.Mathlib.Decide.{dec_lt}
use yaeos.Prelude.{◌⊎◌, inl, inr, ltb, ==_refl}
use yaeos.Prelude.{ℕ, suc, ◌+◌, ◌-◌, ◌^◌, ◌≤◌, ◌<◌, ◌≡◌, refl, ap, ◌∙◌, arith}
use yaeos.Prelude.{true, ==_ne, List, [], ◌∷◌, ◌++◌, length, set, get_or}
use yaeos.Prelude.{length-set, length-replicate, get_elem?-eq-get_or, if◌then◌else◌, ok}
use yaeos.Word.{◌+w◌, ◌-w◌}
use yaeos.Cbuffer
use yaeos.Cbuffer.{init, push, pop, next_widx, next_ridx}
use yaeos.Cbuffer.Places.{place, values, next-place, values-push, values-pop}

-- What the buffer holds, the oldest value first.
abbrev pub contents : Cbuffer.Cbuffer → List ℕ
contents b = values (length b.array) b.array b.r_idx 0 b.count

pub record IsValid (b : Cbuffer.Cbuffer) : Type 0 where
  pub some_room : 0 < length b.array
  pub small : length b.array < 2 ^ 32
  pub reads_inside : b.r_idx < length b.array
  pub fits : b.count ≤ length b.array
  pub writes_after : b.w_idx ≡ place (length b.array) b.r_idx b.count

abbrev pushed : Cbuffer.Cbuffer → ℕ → Cbuffer.Cbuffer
pushed b v = record {
  r_idx = b.r_idx;
  w_idx = place (length b.array) b.w_idx 1;
  count = b.count + 1;
  array = set b.array b.w_idx v;
}

module _ (b : Cbuffer.Cbuffer) (v : ℕ) (h : IsValid b) where
  push-full : b.count ≡ length b.array → push b v ≡ ok (ltb b.count (length b.array), b)
  unfolding push
  push-full e = rw (← e, ==_refl b.count) refl

  module _ (room : b.count < length b.array) where
    writes_inside : b.w_idx < length b.array
    writes_inside = ground (arith, h)

    push-room : push b v ≡ ok (ltb b.count (length b.array), pushed b v)
    unfolding push next_widx
    push-room =
        let more : b.count +w 1 ≡ b.count + 1 = omega (arith, h) in
        rw (
          ==_ne b.count (length b.array) (omega arith),
          get_elem?-eq-get_or b.array b.w_idx 0 writes_inside,
          next-place (length b.array) b.w_idx writes_inside h.small,
          more,
        )

    pushed-IsValid : IsValid (pushed b v)
    pushed-IsValid =
        let same = length-set b.array b.w_idx v in
        record {
          some_room = omega (arith, h, same);
          small = omega (arith, h, same);
          reads_inside = omega (arith, h, same);
          fits = omega (arith, same);
          writes_after = rw same (ground (arith, h));
        }

    pushed-contents :
        contents (pushed b v)
        ≡ (if ltb b.count (length b.array) then contents b ++ v ∷ [] else contents b)
    pushed-contents =
        let yes_room : ltb b.count (length b.array) ≡ true = ground arith in
        let one_more : b.count + 1 ≡ suc b.count = omega arith in
        rw (yes_room, length-set b.array b.w_idx v, one_more)
          (values-push (length b.array) b.array b.r_idx 0 b.count b.w_idx v refl h.reads_inside
            (omega arith) (ground (arith, h)))

-- `CBUFFER_PUSH` on a valid buffer: while it is not full the value becomes the newest, and the
-- result is true; a full buffer stays, and the result is false. The buffer stays valid.
pub push_lem :
    (b : Cbuffer.Cbuffer) (v : ℕ)
    → IsValid b
    → (b' : Cbuffer.Cbuffer) × (push b v ≡ ok (ltb b.count (length b.array), b'))
      × IsValid b'
      × (length b'.array ≡ length b.array)
      × (contents b' ≡ (if ltb b.count (length b.array) then contents b ++ v ∷ [] else contents b))
push_lem b v h = elim (dec_lt b.count (length b.array)) [
  | yes room ↦ (
    pushed b v,
    push-room b v h room,
    pushed-IsValid b v h room,
    length-set b.array b.w_idx v,
    pushed-contents b v h room,
  )
  | no full ↦ (b, push-full b v h (omega (arith, h)), h, refl, ground (arith, h))
]

abbrev popped : Cbuffer.Cbuffer → Cbuffer.Cbuffer
popped b = record b { r_idx = place (length b.array) b.r_idx 1; count = b.count - 1 }

pop-empty :
    (b : Cbuffer.Cbuffer) (defaultval : ℕ) → b.count ≡ 0 → pop b defaultval ≡ ok (defaultval, b)
unfolding pop
pop-empty b defaultval e = rw e refl

module _ (b : Cbuffer.Cbuffer) (defaultval : ℕ) (h : IsValid b) (left : 0 < b.count) where
  pop-some : pop b defaultval ≡ ok (get_or b.array b.r_idx 0, popped b)
  unfolding pop next_ridx
  pop-some =
      let less : b.count -w 1 ≡ b.count - 1 = omega (arith, h) in
      rw (
        ==_ne b.count 0 (omega arith),
        get_elem?-eq-get_or b.array b.r_idx 0 h.reads_inside,
        next-place (length b.array) b.r_idx h.reads_inside h.small,
        less,
      )

module _ (b : Cbuffer.Cbuffer) (h : IsValid b) (left : 0 < b.count) where
  popped-IsValid : IsValid (popped b)
  popped-IsValid = record {
    some_room = h.some_room;
    small = h.small;
    reads_inside = ground (arith, h);
    fits = omega (arith, h);
    writes_after = ground (arith, h);
  }

  popped-contents : contents b ≡ get_or b.array b.r_idx 0 ∷ contents (popped b)
  popped-contents =
      let one_more : b.count ≡ suc (b.count - 1) = omega arith in
      let first : place (length b.array) b.r_idx 0 ≡ b.r_idx = ground (arith, h) in
      ap (λ c. values (length b.array) b.array b.r_idx 0 c) one_more
      ∙ rw first (
          ap (λ l. get_or b.array b.r_idx 0 ∷ l)
            (values-pop (length b.array) b.array b.r_idx 0 (b.count - 1) h.reads_inside
              (omega (arith, h))))

-- `CBUFFER_POP` on a valid buffer takes the oldest value, and leaves the others in a valid buffer;
-- on an empty buffer it gives the default value and changes nothing.
pub pop_lem :
    (b : Cbuffer.Cbuffer) (defaultval : ℕ)
    → IsValid b
    → (b' : Cbuffer.Cbuffer) × (v : ℕ) × (pop b defaultval ≡ ok (v, b'))
      × IsValid b'
      × (length b'.array ≡ length b.array)
      × ((contents b ≡ []) × (v ≡ defaultval) × (b' ≡ b) ⊎ (contents b ≡ v ∷ contents b'))
pop_lem b defaultval h = elim (dec_lt 0 b.count) [
  | no none_left ↦
      let zero_count : b.count ≡ 0 = omega arith in
      (
        b,
        defaultval,
        pop-empty b defaultval zero_count,
        h,
        refl,
        inl (ap (λ c. values (length b.array) b.array b.r_idx 0 c) zero_count, refl, refl),
      )
  | yes some_left ↦ (
    popped b,
    get_or b.array b.r_idx 0,
    pop-some b defaultval h some_left,
    popped-IsValid b h some_left,
    refl,
    inr (popped-contents b h some_left),
  )
]

-- `CBUFFER_INIT` over an array of 1 to 2 ^ 32 - 1 places gives a valid buffer that holds nothing.
pub init-IsValid :
    (array : List ℕ)
    → 0 < length array
    → length array < 2 ^ 32
    → IsValid (init array)
      × (contents (init array) ≡ [])
      × (length (init array).array ≡ length array)
unfolding init
init-IsValid array some_room small =
    let same = length-replicate (length array) 0 in
    (
      record {
        some_room = omega (arith, same);
        small = omega (arith, same);
        reads_inside = omega (arith, same);
        fits = omega arith;
        writes_after = rw same (ground arith);
      },
      refl,
      same,
    )
