-- ===== src/Pool/Thread.antt =====
-- The loop of `mem_pool_init` in kernel/lib/mm/pool.c.
use native.Mathlib.Nat.{suc-mul}
use yaeos.Prelude.{ℕ, zero, suc, ◌+◌, ◌*◌, ◌^◌, ◌<◌, ◌≤◌, ◌≡◌, ◌≢◌, ◌⊎◌, inl, inr, refl, arith}
use yaeos.Prelude.{true, false, List, [], ◌∷◌, ◌++◌, leb, ==_ne, ok, append_assoc}
use yaeos.Word.{◌+w◌}
use yaeos.Slist.{Heap, assign, insert}
use yaeos.Slist.Chain.{Apart, nil, cons, Chain, Chain-insert}
use yaeos.Pool.{node_aligned, thread}
use yaeos.Pool.Elements.{AllAligned, and_node}

-- Elements one stride apart.
abbrev pub blocks : ℕ → ℕ → ℕ → List ℕ
blocks zero m stride = []
blocks (suc k) m stride = m ∷ blocks k (m + stride) stride

-- Every node of the list stands below the address.
pub data Below (m : ℕ) : List ℕ → Type 0 where
  none_left : Below m []
  one_more : {ns : List ℕ} (n : ℕ) → n < m → Below m ns → Below m (n ∷ ns)

Below-Apart : {m : ℕ} {ns : List ℕ} → Below m ns → Apart m ns
Below-Apart none_left = nil
Below-Apart (one_more n h b) = cons n (omega arith) (Below-Apart b)

Below-append : {m : ℕ} {ns : List ℕ} (n k : ℕ) → Below m ns → m ≤ k → n < k → Below k (ns ++ n ∷ [])
Below-append n k none_left up h = one_more n h none_left
Below-append n k (one_more n' h' b) up h = one_more n' (omega arith) (Below-append n k b up h)

-- One round of the loop.
thread_run :
    (heap : Heap) (m new stride size limit fuel : ℕ) (heap' : Heap)
    → m +w stride ≡ new
    → leb (new +w size) limit ≡ true
    → node_aligned m ≡ true
    → node_aligned new ≡ true
    → m ≢ 0
    → new ≢ 0
    → thread fuel (assign (assign heap new (heap m)) m new) new stride size limit ≡ ok heap'
    → thread (suc fuel) heap m stride size limit ≡ ok heap'
unfolding thread insert
thread_run heap m new stride size limit fuel heap' sum go is is' some_m some_new run =
    rw (sum, go, is, is', ==_ne m 0 some_m, ==_ne new 0 some_new) run

Chain-same : {heap : Heap} {p : ℕ} {ns ns' : List ℕ} → ns ≡ ns' → Chain heap p ns → Chain heap p ns'
Chain-same e c = rw e at c

-- The loop threads the elements up to the last one that fits.
pub thread_lem :
    (k fuel : ℕ) (heap : Heap) (p : ℕ) (xs : List ℕ) (m stride size limit : ℕ)
    → Chain heap p (xs ++ m ∷ [])
    → Below m xs
    → (p < m) ⊎ (limit ≤ p)
    → 0 < size
    → 0 < stride
    → 0 < m
    → m + k * stride + size ≤ limit
    → limit < m + suc k * stride + size
    → limit + stride < 2 ^ 32
    → AllAligned (blocks (suc k) m stride)
    → k < fuel
    → (heap' : Heap) × (thread fuel heap m stride size limit ≡ ok heap')
      × Chain heap' p (xs ++ blocks (suc k) m stride)
unfolding thread
thread_lem k zero heap p xs m stride size limit c b out some_size some_stride some_m fits over small
      al h =
    absurd (omega arith)
thread_lem zero (suc fuel) heap p xs m stride size limit c b out some_size some_stride some_m fits
      over small al h =
    let stop : leb (m +w stride +w size) limit ≡ false = ground (arith, suc-mul 0 stride) in
    (heap, rw stop refl, c)
thread_lem (suc k) (suc fuel) heap p xs m stride size limit c b out some_size some_stride some_m
      fits over small (and_node _ is (and_node _ is' al)) h =
    let new = m + stride in
    let more = suc-mul k stride in
    let sum : m +w stride ≡ new = omega arith in
    let go : leb (new +w size) limit ≡ true = ground arith in
    let other : new ≢ p = elim out [ inl lt ↦ omega arith | inr le ↦ omega arith ] in
    let below = Below-append m new b (omega arith) (omega arith) in
    let c' = Chain-insert xs heap p m new c (omega arith) other (Below-Apart below) in
    let (heap', run, c'') =
      thread_lem k fuel (assign (assign heap new (heap m)) m new) p (xs ++ m ∷ []) new stride size
        limit c' below (elim out [ inl lt ↦ inl (omega arith) | inr le ↦ inr le ]) some_size
        some_stride (omega arith) (omega (arith, suc-mul (suc k) stride))
        (omega (arith, suc-mul (suc k) stride)) small (and_node new is' al) (omega arith) in
    (
      heap',
      thread_run heap m new stride size limit fuel heap' sum go is is' (omega arith) (omega arith)
          run,
      Chain-same (append_assoc xs (m ∷ []) (blocks (suc k) new stride)) c'',
    )
