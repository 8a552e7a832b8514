-- ===== src/DmList/Tests.antt =====
-- The theorems on the lists at a ring of the head 1 with the entries 5 and 6.
use dmtimer.Base.{true, false, ◌≡◌, refl, [], ◌∷◌, ◌++◌, arith}
use dmtimer.DmList.{
  Links, init_list_head, list_insert, list_add_tail, list_del, list_poison1, list_poison2,
  list_replace_init, list_splice_tail_init, list_cut_position, list_cut_position, list_cut,
  list_is_singular, list_is_last, list_empty, list_empty_careful,
}
use dmtimer.DmList.Ring.{IsRing, list_add_tail-IsRing}
use dmtimer.DmList.Remove.{list_del-IsRing}
use dmtimer.DmList.Cut.{list_cut_position-IsRing}
use dmtimer.DmList.Splice.{list_splice_tail_init-IsRing}
use dmtimer.DmList.Replace.{list_replace_init-IsRing}

abbrev unset : Links
unset = record { next = λ p. 0; prev = λ p. 0 }

-- the links after `INIT_LIST_HEAD` of 1 and `list_add_tail` of 5 and of 6
abbrev two : Links
two = list_add_tail 6 1 (list_add_tail 5 1 (init_list_head 1 unset))

two-IsRing : IsRing two 1 (5 ∷ 6 ∷ [])
unfolding init_list_head list_add_tail list_insert
two-IsRing = record { seg = (refl, refl, (refl, refl, (refl, refl))); distinct = λ q. ground arith }

list_add_tail-IsRing_example : IsRing (list_add_tail 7 1 two) 1 ((5 ∷ 6 ∷ []) ++ 7 ∷ [])
list_add_tail-IsRing_example = list_add_tail-IsRing two 7 1 (5 ∷ 6 ∷ []) two-IsRing (omega arith)

list_del-IsRing_example :
    IsRing (list_del 5 two) 1 ([] ++ 6 ∷ [])
    × ((list_del 5 two).next 5 ≡ list_poison1)
    × ((list_del 5 two).prev 5 ≡ list_poison2)
list_del-IsRing_example = list_del-IsRing two 5 1 [] (6 ∷ []) two-IsRing

list_replace_init-IsRing_example :
    IsRing (list_replace_init 1 9 two) 9 (5 ∷ 6 ∷ []) × IsRing (list_replace_init 1 9 two) 1 []
list_replace_init-IsRing_example =
    list_replace_init-IsRing two 1 9 (5 ∷ 6 ∷ []) two-IsRing (omega arith)

-- a second ring, of the head 2 with the entry 8
abbrev both : Links
both = list_add_tail 8 2 (init_list_head 2 two)

both-IsRing : IsRing both 1 (5 ∷ 6 ∷ [])
unfolding init_list_head list_add_tail list_insert
both-IsRing = record {
  seg = (refl, refl, (refl, refl, (refl, refl)));
  distinct = λ q. ground arith;
}

other-IsRing : IsRing both 2 (8 ∷ [])
unfolding init_list_head list_add_tail list_insert
other-IsRing = record { seg = (refl, refl, (refl, refl)); distinct = λ q. ground arith }

list_splice_tail_init-IsRing_example :
    IsRing (list_splice_tail_init 2 1 both) 1 ((5 ∷ 6 ∷ []) ++ 8 ∷ [])
    × IsRing (list_splice_tail_init 2 1 both) 2 []
list_splice_tail_init-IsRing_example =
    list_splice_tail_init-IsRing both 2 1 (8 ∷ []) (5 ∷ 6 ∷ []) other-IsRing both-IsRing
      (λ q. ground arith)

-- The first entry of the ring is cut off, to the head 3.
cuts :
    IsRing (list_cut_position 3 1 5 two) 3 (5 ∷ [])
    × IsRing (list_cut_position 3 1 5 two) 1 (6 ∷ [])
unfolding init_list_head list_add_tail list_insert list_cut_position list_cut list_empty
    list_is_singular
cuts = (
  record { seg = (refl, refl, (refl, refl)); distinct = λ q. ground arith },
  record { seg = (refl, refl, (refl, refl)); distinct = λ q. ground arith },
)

asks :
    (list_is_last 6 1 two ≡ true)
    × (list_is_last 5 1 two ≡ false)
    × (list_empty_careful 1 two ≡ false)
unfolding init_list_head list_add_tail list_insert list_is_last list_empty_careful
asks = (refl, refl, refl)

list_cut_position-IsRing_example :
    IsRing (list_cut_position 2 1 5 both) 2 ([] ++ 5 ∷ [])
    × IsRing (list_cut_position 2 1 5 both) 1 (6 ∷ [])
list_cut_position-IsRing_example = list_cut_position-IsRing both 2 1 5 [] (6 ∷ []) both-IsRing refl
