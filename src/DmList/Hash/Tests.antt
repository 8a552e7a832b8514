-- ===== src/DmList/Hash/Tests.antt =====
-- The functions on `hlist` run on small lists, and the theorems applied to these.
use dmtimer.Base.{◌≡◌, refl, true, false, [], ◌∷◌, ◌++◌, arith}
use dmtimer.DmList.{list_poison1, list_poison2}
use dmtimer.DmList.Hash.{
  HashLinks, init_hlist_head, init_hlist_node, hlist_empty, hlist_unhashed, hlist_unlink, hlist_del,
  hlist_del_init, hlist_add_head, hlist_add_before, hlist_add_after,
}
use dmtimer.DmList.Hash.Chain.{IsChain}
use dmtimer.DmList.Hash.Changes.{hlist_del-IsChain}

-- the head 1 with the nodes 5, 6 and 7
abbrev three : HashLinks
three = hlist_add_after 6 7 (
    hlist_add_before 5 6
      (hlist_add_head 6 1 (init_hlist_head 1 (record { next = λ p. 9; pprev = λ p. 9 }))))

three-IsChain : IsChain three 1 (5 ∷ 6 ∷ 7 ∷ [])
unfolding init_hlist_head hlist_add_head hlist_add_before hlist_add_after
three-IsChain = record {
  chain = (refl, refl, (refl, refl, (refl, refl, refl)));
  distinct = λ q. ground arith;
}

not_empty : hlist_empty 1 three ≡ false
unfolding init_hlist_head hlist_add_head hlist_add_before hlist_add_after hlist_empty
not_empty = refl

-- `hlist_del_init` leaves the node as `hlist_unhashed` has it, and then does nothing to it.
taken_out : hlist_unhashed 6 (hlist_del_init 6 three) ≡ true
unfolding init_hlist_head init_hlist_node hlist_add_head hlist_add_before hlist_add_after
    hlist_unlink hlist_del_init hlist_unhashed
taken_out = refl

hlist_del-IsChain_example :
    IsChain (hlist_del 6 three) 1 ((5 ∷ []) ++ 7 ∷ [])
    × ((hlist_del 6 three).next 6 ≡ list_poison1)
    × ((hlist_del 6 three).pprev 6 ≡ list_poison2)
hlist_del-IsChain_example = hlist_del-IsChain three 6 1 (5 ∷ []) (7 ∷ []) three-IsChain
