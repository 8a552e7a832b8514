-- ===== src/DmList.antt =====
-- include/dmlist.h: doubly linked rings of `struct list_head`, in a memory of two pointers per address.
pub mod Ring
pub mod Remove
pub mod Replace
pub mod Splice
pub mod Move
pub mod Cut
pub mod Hash
mod Tests
use dmtimer.Base.{ℕ, Bool, ◌&&◌, ◌||◌, not, ◌==◌, if◌then◌else◌, update}

-- `next` and `prev` of the `list_head` at every address
pub record Links : Type 0 where
  pub next : ℕ → ℕ
  pub prev : ℕ → ℕ

abbrev pub set_next : ℕ → ℕ → Links → Links
set_next p q m = record m { next = update m.next p q }

abbrev pub set_prev : ℕ → ℕ → Links → Links
set_prev p q m = record m { prev = update m.prev p q }

-- `INIT_LIST_HEAD`
pub init_list_head : ℕ → Links → Links
init_list_head list m = set_prev list list (set_next list list m)

-- `__list_add`
pub list_insert : ℕ → ℕ → ℕ → Links → Links
list_insert newone prev next m =
    set_next prev newone (set_prev newone prev (set_next newone next (set_prev next newone m)))

-- `list_add`
pub list_add : ℕ → ℕ → Links → Links
list_add newone head m = list_insert newone head (m.next head) m

-- `list_add_tail`
pub list_add_tail : ℕ → ℕ → Links → Links
list_add_tail newone head m = list_insert newone (m.prev head) head m

-- `__list_del`
pub list_unlink : ℕ → ℕ → Links → Links
list_unlink prev next m = set_next prev next (set_prev next prev m)

-- `list_empty`
pub list_empty : ℕ → Links → Bool
list_empty head m = m.next head == head

abbrev pub list_poison1 : ℕ
list_poison1 = 0x00100100

abbrev pub list_poison2 : ℕ
list_poison2 = 0x00200200

-- `list_del`
pub list_del : ℕ → Links → Links
list_del entry m =
    set_prev entry list_poison2
      (set_next entry list_poison1 (list_unlink (m.prev entry) (m.next entry) m))

-- `list_replace`; every statement reads what the ones before it wrote
pub list_replace : ℕ → ℕ → Links → Links
list_replace old newone m =
    let m1 = set_next newone (m.next old) m in
    let m2 = set_prev (m1.next newone) newone m1 in
    let m3 = set_prev newone (m2.prev old) m2 in set_next (m3.prev newone) newone m3

-- `list_replace_init`
pub list_replace_init : ℕ → ℕ → Links → Links
list_replace_init old newone m = init_list_head old (list_replace old newone m)

-- `list_del_init`
pub list_del_init : ℕ → Links → Links
list_del_init entry m = init_list_head entry (list_unlink (m.prev entry) (m.next entry) m)

-- `list_move`
pub list_move : ℕ → ℕ → Links → Links
list_move list head m = list_add list head (list_unlink (m.prev list) (m.next list) m)

-- `list_move_tail`
pub list_move_tail : ℕ → ℕ → Links → Links
list_move_tail list head m = list_add_tail list head (list_unlink (m.prev list) (m.next list) m)

-- `list_is_last`
pub list_is_last : ℕ → ℕ → Links → Bool
list_is_last list head m = m.next list == head

-- `list_empty_careful`
pub list_empty_careful : ℕ → Links → Bool
list_empty_careful head m = (m.next head == head) && (m.next head == m.prev head)

-- `list_is_singular`
pub list_is_singular : ℕ → Links → Bool
list_is_singular head m = not (list_empty head m) && (m.next head == m.prev head)

-- `__list_cut_position`; every statement reads what the ones before it wrote
pub list_cut : ℕ → ℕ → ℕ → Links → Links
list_cut list head entry m =
    let new_first = m.next entry in
    let m1 = set_next list (m.next head) m in
    let m2 = set_prev (m1.next list) list m1 in
    set_prev new_first head (set_next head new_first (set_next entry list (set_prev list entry m2)))

-- `list_cut_position`
pub list_cut_position : ℕ → ℕ → ℕ → Links → Links
list_cut_position list head entry m =
    if list_empty head m
    then m
    else if list_is_singular head m && (not (m.next head == entry) && not (head == entry))
    then m
    else if entry == head
    then init_list_head list m
    else list_cut list head entry m

-- `__list_splice`
pub list_join : ℕ → ℕ → ℕ → Links → Links
list_join list prev next m =
    let first = m.next list in
    let last = m.prev list in
    set_prev next last (set_next last next (set_next prev first (set_prev first prev m)))

-- `list_splice`
pub list_splice : ℕ → ℕ → Links → Links
list_splice list head m = if list_empty list m then m else list_join list head (m.next head) m

-- `list_splice_tail`
pub list_splice_tail : ℕ → ℕ → Links → Links
list_splice_tail list head m = if list_empty list m then m else list_join list (m.prev head) head m

-- `list_splice_init`
pub list_splice_init : ℕ → ℕ → Links → Links
list_splice_init list head m =
    if list_empty list m then m else init_list_head list (list_join list head (m.next head) m)

-- `list_splice_tail_init`
pub list_splice_tail_init : ℕ → ℕ → Links → Links
list_splice_tail_init list head m =
    if list_empty list m then m else init_list_head list (list_join list (m.prev head) head m)
