-- ===== src/DmList/Hash/Changes.antt =====
-- `hlist_del`, `hlist_add_before`, `hlist_add_after` and `hlist_move_list` on a chain of nodes.
use dmtimer.Base.{
  ℕ, ◌+◌, ◌≤◌, ◌≡◌, refl, inl, inr, false, not, ◌&&◌, List, [], ◌∷◌, ◌++◌, arith, ◌==◌, count,
  count-append, hit, once_more, if◌then◌else◌, Bool-cases, ==_self,
}
use dmtimer.DmList.{list_poison1, list_poison2}
use dmtimer.DmList.Hash.{
  HashLinks, null, hlist_unlink, hlist_del, hlist_add_before, hlist_add_after, hlist_move_list,
}
use dmtimer.DmList.Hash.Chain.{
  Chain, IsChain, Chain-same, Chain-rest, Chain-splice, end_of, count-end_of,
}

next-hlist_unlink :
    (n : ℕ) (m : HashLinks) (q : ℕ)
    → (hlist_unlink n m).next q ≡ (if q == m.pprev n then m.next n else m.next q)
unfolding hlist_unlink
next-hlist_unlink n m q = elim (Bool-cases (m.next n == null)) [
  | inl e ↦ rw e refl
  | inr ne ↦ rw ne refl
]

pprev-hlist_unlink :
    (n : ℕ) (m : HashLinks) (q : ℕ)
    → (hlist_unlink n m).pprev q
      ≡ (if not (m.next n == null) && (q == m.next n) then m.pprev n else m.pprev q)
unfolding hlist_unlink
pprev-hlist_unlink n m q = elim (Bool-cases (m.next n == null)) [
  | inl e ↦ rw e refl
  | inr ne ↦ rw ne refl
]

-- How often an address stands in a list with a node in the middle, and that it is at most once.
once :
    (m : HashLinks) (head : ℕ) (xs : List ℕ) (n : ℕ) (ys : List ℕ)
    → IsChain m head (xs ++ n ∷ ys)
    → (q : ℕ) → hit q null + (hit q head + count q xs) + (hit q n + count q ys) ≤ 1
once m head xs n ys list q = omega (arith, list.distinct q, count-append q xs (n ∷ ys))

-- `hlist_del` of a node of a list, whose nodes, head and null are distinct, takes this node out of
-- the sequence, leaves the others in order with `pprev` of each the address of the pointer to it,
-- and poisons both pointers of the node.
pub hlist_del-IsChain :
    (m : HashLinks) (n head : ℕ) (xs ys : List ℕ)
    → IsChain m head (xs ++ n ∷ ys)
    → IsChain (hlist_del n m) head (xs ++ ys)
      × ((hlist_del n m).next n ≡ list_poison1)
      × ((hlist_del n m).pprev n ≡ list_poison2)
unfolding hlist_del
hlist_del-IsChain m n head xs ys list = (
  record {
    chain = chain ys list;
    distinct = λ q. omega (arith, once m head xs n ys list q, count-append q xs ys);
  },
  rw (==_self n) refl,
  rw (==_self n) refl,
)
  where
    chain : (ys : List ℕ) → IsChain m head (xs ++ n ∷ ys) → Chain (hlist_del n m) head (xs ++ ys)
    chain [] list =
        let (at, back, end) = Chain-rest m head xs (n ∷ []) list.chain in
        let o = once m head xs n [] list in
        let last = count-end_of head xs in
        Chain-splice m (hlist_del n m) head xs (n ∷ []) [] (λ q. omega (arith, o q))
          (λ q h ne. rw (next-hlist_unlink n m q, back, ne) (ground (arith, o q)))
          (λ q h. rw (pprev-hlist_unlink n m q, end) (ground (arith, o q))) list.chain
          (rw (next-hlist_unlink n m (end_of head xs), back, ==_self (end_of head xs), end)
            (ground (arith, o n, last)))
    chain (y ∷ ys) list =
        let (at, back, (next, prev, end)) = Chain-rest m head xs (n ∷ y ∷ ys) list.chain in
        let o = once m head xs n (y ∷ ys) list in
        let last = count-end_of head xs in
        let d = end_of head xs in
        let y0 : (y == null) ≡ false = ground (arith, o y) in
        Chain-splice m (hlist_del n m) head xs (n ∷ y ∷ ys) (y ∷ ys) (λ q. omega (arith, o q))
          (λ q h ne. rw (next-hlist_unlink n m q, back, ne) (ground (arith, o q)))
          (λ q h. rw (pprev-hlist_unlink n m q, next, y0) (ground (arith, o q))) list.chain
          (
            rw (next-hlist_unlink n m d, back, ==_self d, next) (ground (arith, o n, last)),
            rw (pprev-hlist_unlink n m y, next, y0, ==_self y, back) (ground (arith, o n)),
            Chain-same m (hlist_del n m) y ys
                (λ q h. rw (next-hlist_unlink n m q, back) (ground (arith, o q, o d, last)))
                (λ q h. rw (pprev-hlist_unlink n m q, next, y0) (ground (arith, o q))) end,
          )

-- `hlist_add_before` of a new node puts it before the node of the list that is given.
pub hlist_add_before-IsChain :
    (m : HashLinks) (n next head : ℕ) (xs ys : List ℕ)
    → IsChain m head (xs ++ next ∷ ys)
    → count n (null ∷ head ∷ (xs ++ next ∷ ys)) ≡ 0
    → IsChain (hlist_add_before n next m) head (xs ++ n ∷ next ∷ ys)
unfolding hlist_add_before
hlist_add_before-IsChain m n next head xs ys list new =
    let (at, back, end) = Chain-rest m head xs (next ∷ ys) list.chain in
    let o = once m head xs next ys list in
    let last = count-end_of head xs in
    let d = end_of head xs in
    let fresh : count n (null ∷ head ∷ xs) + (hit n next + count n ys) ≡ 0 =
      omega (arith, new, count-append n xs (next ∷ ys)) in
    let nn : (n == next) ≡ false = ground (arith, fresh) in
    record {
      chain =
          Chain-splice m (hlist_add_before n next m) head xs (next ∷ ys) (n ∷ next ∷ ys)
            (λ q. omega (arith, o q))
            (λ q h ne. rw (back, nn, ==_self n, ne) (ground (arith, fresh)))
            (λ q h. rw (back) (ground (arith, fresh, o q))) list.chain
            (
              rw (nn, ==_self n, back, ==_self d) refl,
              rw (nn, ==_self n, back) refl,
              (
                rw (nn, ==_self n, back) (ground (arith, fresh, last)),
                rw (==_self next) refl,
                Chain-same m (hlist_add_before n next m) next ys
                    (λ q h. rw (nn, ==_self n, back) (ground (arith, fresh, o q, o d, last)))
                    (λ q h. ground (arith, fresh, o q)) end,
              ),
            );
      distinct = λ q. omega (
        arith,
        once_more (λ v. count v (null ∷ head ∷ (xs ++ next ∷ ys))) n q new (list.distinct q),
        count-append q xs (next ∷ ys),
        count-append q xs (n ∷ next ∷ ys),
      );
    }

-- `hlist_add_after` of a new node puts it behind the node of the list that is given.
pub hlist_add_after-IsChain :
    (m : HashLinks) (n next head : ℕ) (xs ys : List ℕ)
    → IsChain m head (xs ++ n ∷ ys)
    → count next (null ∷ head ∷ (xs ++ n ∷ ys)) ≡ 0
    → IsChain (hlist_add_after n next m) head (xs ++ n ∷ next ∷ ys)
unfolding hlist_add_after
hlist_add_after-IsChain m n next head xs ys list new = record {
  chain = chain ys list new;
  distinct = λ q. omega (
    arith,
    once_more (λ v. count v (null ∷ head ∷ (xs ++ n ∷ ys))) next q new (list.distinct q),
    count-append q xs (n ∷ ys),
    count-append q xs (n ∷ next ∷ ys),
  );
}
  where
    chain :
        (ys : List ℕ)
        → IsChain m head (xs ++ n ∷ ys)
        → count next (null ∷ head ∷ (xs ++ n ∷ ys)) ≡ 0
        → Chain (hlist_add_after n next m) head (xs ++ n ∷ next ∷ ys)
    chain [] list new =
        let (at, back, end) = Chain-rest m head xs (n ∷ []) list.chain in
        let o = once m head xs n [] list in
        let last = count-end_of head xs in
        let fresh : count next (null ∷ head ∷ xs) + hit next n ≡ 0 =
          omega (arith, new, count-append next xs (n ∷ [])) in
        let nn : (next == n) ≡ false = ground (arith, fresh) in
        Chain-splice m (hlist_add_after n next m) head xs (n ∷ []) (n ∷ next ∷ [])
          (λ q. omega (arith, o q))
          (λ q h ne. rw (nn, ==_self next, end) (ground (arith, fresh, o q)))
          (λ q h. rw (nn, ==_self next, end) (ground (arith, fresh, o q))) list.chain
          (
            rw (nn, ==_self next, end) (ground (arith, fresh, o n, last, at)),
            rw (nn, ==_self next, end) (ground (arith, fresh, back)),
            (
              rw (nn, ==_self next, end) (ground (arith, fresh)),
              rw (nn, ==_self next, end) (ground (arith, fresh)),
              rw (nn, ==_self next, end) (ground (arith, fresh)),
            ),
          )
    chain (y ∷ ys) list new =
        let (at, back, (after, prev, end)) = Chain-rest m head xs (n ∷ y ∷ ys) list.chain in
        let o = once m head xs n (y ∷ ys) list in
        let last = count-end_of head xs in
        let fresh : count next (null ∷ head ∷ xs) + (hit next n + count next (y ∷ ys)) ≡ 0 =
          omega (arith, new, count-append next xs (n ∷ y ∷ ys)) in
        let nn : (next == n) ≡ false = ground (arith, fresh) in
        let y0 : (y == null) ≡ false = ground (arith, o y) in
        Chain-splice m (hlist_add_after n next m) head xs (n ∷ y ∷ ys) (n ∷ next ∷ y ∷ ys)
          (λ q. omega (arith, o q))
          (λ q h ne. rw (nn, ==_self next, after, y0) (ground (arith, fresh, o q)))
          (λ q h. rw (nn, ==_self next, after, y0) (ground (arith, fresh, o q))) list.chain
          (
            rw (nn, ==_self next, after, y0) (ground (arith, fresh, o n, last, at)),
            rw (nn, ==_self next, after, y0) (ground (arith, fresh, back, o n)),
            (
              rw (nn, ==_self next, after, y0) (ground (arith, fresh)),
              rw (nn, ==_self next, after, y0) (ground (arith, fresh)),
              (
                rw (nn, ==_self next, after, y0) (ground (arith, fresh)),
                rw (nn, ==_self next, after, y0) (ground (arith, fresh)),
                Chain-same m (hlist_add_after n next m) y ys
                    (λ q h. rw (nn, ==_self next, after, y0) (ground (arith, fresh, o q)))
                    (λ q h. rw (nn, ==_self next, after, y0) (ground (arith, fresh, o q, o y))) end,
              ),
            ),
          )

-- `hlist_move_list` to a head that is neither null nor the old head nor a node of the list gives it
-- the nodes in their order, the `pprev` of the first one included, and leaves the old head empty.
pub hlist_move_list-IsChain :
    (m : HashLinks) (old newone : ℕ) (xs : List ℕ)
    → IsChain m old xs
    → count newone (null ∷ old ∷ xs) ≡ 0
    → IsChain (hlist_move_list old newone m) newone xs
      × IsChain (hlist_move_list old newone m) old []
unfolding hlist_move_list
hlist_move_list-IsChain m old newone [] list new =
    let no : (newone == old) ≡ false = ground (arith, new) in
    (
      record {
        chain = rw (==_self newone, list.chain) (ground (arith, no));
        distinct = λ q. omega (
          arith,
          once_more (λ v. count v (null ∷ [])) newone q (omega (arith, new))
              (omega (arith, list.distinct q)),
        );
      },
      record { chain = rw (==_self old) refl; distinct = list.distinct },
    )
hlist_move_list-IsChain m old newone (x ∷ xs) list new =
    let no : (newone == old) ≡ false = ground (arith, new) in
    let x0 : (x == null) ≡ false = ground (arith, list.distinct x) in
    (
      record {
        chain = (
          rw (==_self newone, list.chain.0, x0) (ground (arith, no)),
          rw (==_self newone, list.chain.0, x0) (ground arith),
          Chain-same m (hlist_move_list old newone m) x xs
              (λ q h. rw (==_self newone, list.chain.0, x0) (ground (arith, new, list.distinct q)))
              (λ q h. rw (==_self newone, list.chain.0, x0) (ground (arith, new, list.distinct q)))
              list.chain.2,
        );
        distinct = λ q. omega (
          arith,
          once_more (λ v. count v (null ∷ x ∷ xs)) newone q (omega (arith, new))
              (omega (arith, list.distinct q)),
        );
      },
      record { chain = rw (==_self old) refl; distinct = λ q. omega (arith, list.distinct q) },
    )
