-- ===== src/DmList/Hash.antt =====
-- include/dmlist.h: the lists with a single pointer for the head (`hlist`). `first` of a head and `next` of a node
-- are the first members, so that the address of either is that of the whole; the null pointer is 0.
pub mod Chain
pub mod Changes
mod Tests
use dmtimer.Base.{ℕ, Bool, ◌==◌, if◌then◌else◌, update}
use dmtimer.DmList.{list_poison1, list_poison2}

-- `first` of the head or `next` of the node at every address, and `pprev` of the nodes
pub record HashLinks : Type 0 where
  pub next : ℕ → ℕ
  pub pprev : ℕ → ℕ

abbrev pub null : ℕ
null = 0

abbrev pub set_next : ℕ → ℕ → HashLinks → HashLinks
set_next p q m = record m { next = update m.next p q }

abbrev pub set_pprev : ℕ → ℕ → HashLinks → HashLinks
set_pprev p q m = record m { pprev = update m.pprev p q }

-- `INIT_HLIST_HEAD`
unfoldable pub init_hlist_head : ℕ → HashLinks → HashLinks
init_hlist_head ptr m = set_next ptr null m

-- `INIT_HLIST_NODE`
unfoldable pub init_hlist_node : ℕ → HashLinks → HashLinks
init_hlist_node h m = set_pprev h null (set_next h null m)

unfoldable pub hlist_unhashed : ℕ → HashLinks → Bool
hlist_unhashed h m = m.pprev h == null

unfoldable pub hlist_empty : ℕ → HashLinks → Bool
hlist_empty h m = m.next h == null

-- `__hlist_del`
unfoldable pub hlist_unlink : ℕ → HashLinks → HashLinks
hlist_unlink n m =
    let next = m.next n in
    let pprev = m.pprev n in
    let m1 = set_next pprev next m in if next == null then m1 else set_pprev next pprev m1

unfoldable pub hlist_del : ℕ → HashLinks → HashLinks
hlist_del n m = set_pprev n list_poison2 (set_next n list_poison1 (hlist_unlink n m))

unfoldable pub hlist_del_init : ℕ → HashLinks → HashLinks
hlist_del_init n m = if hlist_unhashed n m then m else init_hlist_node n (hlist_unlink n m)

unfoldable pub hlist_add_head : ℕ → ℕ → HashLinks → HashLinks
hlist_add_head n h m =
    let first = m.next h in
    let m1 = set_next n first m in
    let m2 = if first == null then m1 else set_pprev first n m1 in set_pprev n h (set_next h n m2)

-- puts `n` before `next`
unfoldable pub hlist_add_before : ℕ → ℕ → HashLinks → HashLinks
hlist_add_before n next m =
    let m1 = set_pprev n (m.pprev next) m in
    let m2 = set_next n next m1 in let m3 = set_pprev next n m2 in set_next (m3.pprev n) n m3

-- puts `next` behind `n`
unfoldable pub hlist_add_after : ℕ → ℕ → HashLinks → HashLinks
hlist_add_after n next m =
    let m1 = set_next next (m.next n) m in
    let m2 = set_next n next m1 in
    let m3 = set_pprev next n m2 in
    if m3.next next == null then m3 else set_pprev (m3.next next) next m3

unfoldable pub hlist_move_list : ℕ → ℕ → HashLinks → HashLinks
hlist_move_list old newone m =
    let m1 = set_next newone (m.next old) m in
    let m2 = if m1.next newone == null then m1 else set_pprev (m1.next newone) newone m1 in
    set_next old null m2
