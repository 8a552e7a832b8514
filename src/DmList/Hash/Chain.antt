-- ===== src/DmList/Hash/Chain.antt =====
-- A chain of nodes behind a head stands for a sequence, and the functions on `hlist` do on the chain what they
-- are to do on the sequence.
use dmtimer.Base.{
  ℕ, ◌≤◌, ◌<◌, ◌≡◌, refl, ◌∙◌, false, List, [], ◌∷◌, ◌++◌, arith, ◌==◌, count, once_more, ==_self,
}
use dmtimer.DmList.Hash.{HashLinks, null, hlist_add_head}

-- From `a` the pointers lead through `xs` to null, and each node has the address of the pointer to it.
abbrev pub Chain : HashLinks → ℕ → List ℕ → Type 0
Chain m a [] = m.next a ≡ null
Chain m a (x ∷ xs) = (m.next a ≡ x) × (m.pprev x ≡ a) × Chain m x xs

-- The list behind `head` holds `xs`: null, the head and the nodes are distinct.
pub record IsChain (m : HashLinks) (head : ℕ) (xs : List ℕ) : Type 0 where
  pub chain : Chain m head xs
  pub distinct : (q : ℕ) → count q (null ∷ head ∷ xs) ≤ 1

pub Chain-same :
    (m m' : HashLinks) (a : ℕ) (xs : List ℕ)
    → ((q : ℕ) → 0 < count q (a ∷ xs) → m'.next q ≡ m.next q)
    → ((q : ℕ) → 0 < count q xs → m'.pprev q ≡ m.pprev q)
    → Chain m a xs
    → Chain m' a xs
Chain-same m m' a [] hn hp s = hn a (ground arith) ∙ s
Chain-same m m' a (x ∷ xs) hn hp s = (
  hn a (ground arith) ∙ s.0,
  hp x (ground arith) ∙ s.1,
  Chain-same m m' x xs (λ q h. hn q (ground arith)) (λ q h. hp q (ground arith)) s.2,
)

-- the address of the pointer that `xs` ends with
abbrev pub end_of : ℕ → List ℕ → ℕ
end_of a [] = a
end_of a (x ∷ xs) = end_of x xs

pub count-end_of : (a : ℕ) (xs : List ℕ) → 0 < count (end_of a xs) (a ∷ xs)
count-end_of a [] = ground arith
count-end_of a (x ∷ xs) = ground (arith, count-end_of x xs)

-- the rest of a chain
pub Chain-rest :
    (m : HashLinks) (a : ℕ) (xs ys : List ℕ) → Chain m a (xs ++ ys) → Chain m (end_of a xs) ys
Chain-rest m a [] ys s = s
Chain-rest m a (x ∷ xs) ys s = Chain-rest m x xs ys s.2

-- A chain whose rest is exchanged: up to there the pointers stay, but for the last one.
pub Chain-splice :
    (m m' : HashLinks) (a : ℕ) (xs ys zs : List ℕ)
    → ((q : ℕ) → count q (a ∷ xs) ≤ 1)
    → ((q : ℕ) → 0 < count q (a ∷ xs) → (q == end_of a xs) ≡ false → m'.next q ≡ m.next q)
    → ((q : ℕ) → 0 < count q xs → m'.pprev q ≡ m.pprev q)
    → Chain m a (xs ++ ys)
    → Chain m' (end_of a xs) zs
    → Chain m' a (xs ++ zs)
Chain-splice m m' a [] ys zs d hn hp s r = r
Chain-splice m m' a (x ∷ xs) ys zs d hn hp s r = (
  hn a (ground arith) (ground (arith, d a, count-end_of x xs)) ∙ s.0,
  hp x (ground arith) ∙ s.1,
  Chain-splice m m' x xs ys zs (λ q. ground (arith, d q)) (λ q h. hn q (ground arith))
      (λ q h. hp q (ground arith)) s.2 r,
)

-- `hlist_add_head` of a node that is neither the head nor in the list puts it in front.
pub hlist_add_head-IsChain :
    (m : HashLinks) (n head : ℕ) (xs : List ℕ)
    → IsChain m head xs
    → count n (null ∷ head ∷ xs) ≡ 0
    → IsChain (hlist_add_head n head m) head (n ∷ xs)
unfolding hlist_add_head
hlist_add_head-IsChain m n head xs list new = record {
  chain = chain xs list new;
  distinct =
      λ q. omega (arith, once_more (λ v. count v (null ∷ head ∷ xs)) n q new (list.distinct q));
}
  where
    chain :
        (xs : List ℕ)
        → IsChain m head xs
        → count n (null ∷ head ∷ xs) ≡ 0
        → Chain (hlist_add_head n head m) head (n ∷ xs)
    chain [] list new =
        let nh : (n == head) ≡ false = ground (arith, new) in
        rw (list.chain, ==_self head, ==_self n, nh) (refl, refl, refl)
    chain (x ∷ xs) list new =
        let nh : (n == head) ≡ false = ground (arith, new) in
        let x0 : (x == null) ≡ false = ground (arith, list.distinct x) in
        let xn : (x == n) ≡ false = ground (arith, new) in
        rw (list.chain.0, x0)
          (
            ground arith,
            ground arith,
            (
              ground (arith, nh),
              ground (arith, xn),
              Chain-same m (hlist_add_head n head m) x xs
                  (λ q h. rw (list.chain.0, x0) (ground (arith, new, list.distinct q)))
                  (λ q h. rw (list.chain.0, x0) (ground (arith, new, list.distinct q)))
                  list.chain.2,
            ),
          )
