-- ===== src/Slist/Last.antt =====
-- The node in front of another in a list of kernel/lib/ds/slist.c.
use yaeos.Prelude.{ℕ, ◌≡◌, ◌≢◌, sym, List, [], ◌∷◌, ◌++◌, ==_ne}
use yaeos.Slist.{Heap, assign}
use yaeos.Slist.Chain.{
  Apart, cons, Chain, link, Chain-Apart, Chain-copy, Apart-head, Apart-tail, Apart-without,
  Apart-member, Apart-before,
}

-- The last of some nodes and the node in front of them.
abbrev pub last_of : ℕ → List ℕ → ℕ
last_of p [] = p
last_of p (x ∷ xs) = last_of x xs

pub last_of-Apart : {a : ℕ} (p : ℕ) (xs : List ℕ) → a ≢ p → Apart a xs → a ≢ last_of p xs
last_of-Apart p [] ne apart = ne
last_of-Apart p (x ∷ xs) ne apart = last_of-Apart x xs (Apart-head apart) (Apart-tail apart)

pub last_of-next :
    {heap : Heap} (p : ℕ) (xs : List ℕ) (n : ℕ) (ys : List ℕ)
    → Chain heap p (xs ++ n ∷ ys)
    → (heap (last_of p xs) ≡ n) × (last_of p xs ≢ 0)
last_of-next p [] n ys (link _ _ some e apart c) = (e, some)
last_of-next p (x ∷ xs) n ys (link _ _ some e apart c) = last_of-next x xs n ys c

-- The list without the node.
pub Chain-remove :
    {heap : Heap} (p : ℕ) (xs : List ℕ) (n : ℕ) (ys : List ℕ)
    → Chain heap p (xs ++ n ∷ ys)
    → Chain (assign heap (last_of p xs) (heap n)) p (xs ++ ys)
Chain-remove p [] n ys (link _ _ some e apart c) = Chain-copy p c some (Apart-tail apart)
Chain-remove p (x ∷ xs) n ys (link _ _ some e apart c) =
    let differs =
      last_of-Apart x xs (Apart-head apart) (Apart-before xs (n ∷ ys) (Apart-tail apart)) in
    link p x some (rw (==_ne p (last_of x xs) differs) e) (Apart-without (x ∷ xs) n ys apart)
      (Chain-remove x xs n ys c)

-- The node is none of the others.
pub member-Apart :
    {heap : Heap} (p : ℕ) (xs : List ℕ) (n : ℕ) (ys : List ℕ)
    → Chain heap p (xs ++ n ∷ ys)
    → (n ≢ p) × Apart n (xs ++ ys)
member-Apart p [] n ys (link _ _ some e apart c) = ((λ z. Apart-head apart (sym z)), Chain-Apart c)
member-Apart p (x ∷ xs) n ys (link _ _ some e apart c) =
    let (ne, away) = member-Apart x xs n ys c in
    ((λ z. Apart-member xs n ys (Apart-tail apart) (sym z)), cons x ne away)
