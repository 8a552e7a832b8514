-- ===== src/DmList/Move.antt =====
-- An entry of a ring is taken out, and moved to the front or the end of the ring, or made a ring of its own.
use dmtimer.Base.{ℕ, ◌+◌, ◌≤◌, ◌≡◌, List, [], ◌∷◌, ◌++◌, arith, count, count-append}
use dmtimer.DmList.{
  Links, init_list_head, list_unlink, list_del, list_del_init, list_move, list_move_tail,
}
use dmtimer.DmList.Ring.{Seg-same, IsRing, list_add-IsRing, list_add_tail-IsRing}
use dmtimer.DmList.Remove.{list_del-IsRing}

module _ (m : Links) (x head : ℕ) (ys zs : List ℕ) (ring : IsRing m head (ys ++ x ∷ zs)) where
  once : (q : ℕ) → count q (head ∷ ys ++ zs) + count q (x ∷ []) ≤ 1
  once q = omega (arith, ring.distinct q, count-append q ys (x ∷ zs), count-append q ys zs)

  list_unlink-IsRing : IsRing (list_unlink (m.prev x) (m.next x) m) head (ys ++ zs)
  unfolding list_del
  list_unlink-IsRing =
      let (rest, _, _) = list_del-IsRing m x head ys zs ring in
      record {
        seg =
            Seg-same (list_del x m) _ head head (ys ++ zs) (λ q h. ground (arith, once q))
              (λ q h. ground (arith, once q, count-append q (ys ++ zs) (head ∷ []))) rest.seg;
        distinct = rest.distinct;
      }

  apart : count x (head ∷ ys ++ zs) ≡ 0
  apart = ground (arith, once x)

  -- `list_move` of an entry of a ring of distinct entries to the head of the same ring puts the
  -- entry in front and leaves the others in order.
  pub list_move-IsRing : IsRing (list_move x head m) head (x ∷ ys ++ zs)
  unfolding list_move
  list_move-IsRing = list_add-IsRing _ x head (ys ++ zs) list_unlink-IsRing apart

  pub list_move_tail-IsRing : IsRing (list_move_tail x head m) head ((ys ++ zs) ++ x ∷ [])
  unfolding list_move_tail
  list_move_tail-IsRing = list_add_tail-IsRing _ x head (ys ++ zs) list_unlink-IsRing apart

  pub list_del_init-IsRing :
      IsRing (list_del_init x m) head (ys ++ zs) × IsRing (list_del_init x m) x []
  unfolding list_del_init init_list_head
  list_del_init-IsRing = (
    record {
      seg =
          Seg-same (list_unlink (m.prev x) (m.next x) m) _ head head (ys ++ zs)
            (λ q h. ground (arith, once q))
            (λ q h. ground (arith, once q, count-append q (ys ++ zs) (head ∷ [])))
            list_unlink-IsRing.seg;
      distinct = list_unlink-IsRing.distinct;
    },
    record { seg = (ground arith, ground arith); distinct = λ q. ground arith },
  )
