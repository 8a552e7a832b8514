-- ===== src/DmList/Splice.antt =====
-- The splices join the rings of two heads.
use mathlib.Core.List.{append-nil}
use dmtimer.Base.{
  ℕ, ◌+◌, ◌≤◌, ◌<◌, ◌≡◌, refl, false, List, [], ◌∷◌, ◌++◌, arith, ◌==◌, count, count-append,
  ==_self,
}
use dmtimer.DmList.{Links, init_list_head, list_join, list_splice_tail_init}
use dmtimer.DmList.Ring.{
  Seg-append, IsRing, last_of, last_of-Seg, count-last_of, count-ne, list_empty-IsRing,
}
use dmtimer.DmList.Replace.{Seg-end}

-- The two rings have no address in common.
abbrev pub AreApart : ℕ → List ℕ → ℕ → List ℕ → Type 0
AreApart list xs head ys = (q : ℕ) → count q (list ∷ xs) + count q (head ∷ ys) ≤ 1

-- If rings of distinct entries hang from `list` and from `head`, with no address in common, then
-- after `list_splice_tail_init` the entries of `list` hang behind those of `head`, both in their
-- order, and the ring of `list` is empty.
pub list_splice_tail_init-IsRing :
    (m : Links) (list head : ℕ) (xs ys : List ℕ)
    → IsRing m list xs
    → IsRing m head ys
    → AreApart list xs head ys
    → IsRing (list_splice_tail_init list head m) head (ys ++ xs)
      × IsRing (list_splice_tail_init list head m) list []
unfolding list_splice_tail_init list_join init_list_head
list_splice_tail_init-IsRing m list head [] ys ring ring' apart =
    rw (list_empty-IsRing m list [] ring, append-nil ys) (ring', ring)
list_splice_tail_init-IsRing m list head (x ∷ xs) ys ring ring' apart =
    rw
      (
        list_empty-IsRing m list (x ∷ xs) ring,
        ring.seg.0,
        last_of-Seg m x list xs ring.seg.2,
        last_of-Seg m head head ys ring'.seg,
      )
      (
        record {
          seg =
              Seg-append _ head x head ys xs
                (Seg-end m _ head head x ys
                  (λ q h ne.
                    rw
                      (
                        not_list q h,
                        count-ne q (last_of x xs) (head ∷ ys)
                            (omega (arith, apart (last_of x xs), last_x)) h,
                      )
                      (ground (arith, ne)))
                  (λ q. omega (arith, ring'.distinct q))
                  (rw (not_list (last_of head ys) last_y, ends_apart, ==_self (last_of head ys))
                    refl)
                  (ground (arith, apart x)) (λ q h. ground (arith, apart q, ring'.distinct q))
                  ring'.seg)
                (Seg-end m _ x list head xs
                  (λ q h ne.
                    rw
                      (
                        no_entry q h,
                        count-ne q (last_of head ys) (x ∷ xs)
                            (omega (arith, apart (last_of head ys), last_y)) h,
                      )
                      (ground (arith, ne)))
                  (λ q. omega (arith, ring.distinct q))
                  (rw (no_entry (last_of x xs) last_x, ==_self (last_of x xs)) refl)
                  (ground (arith, apart head)) (λ q h. ground (arith, apart q, ring.distinct q))
                  ring.seg.2);
          distinct = λ q. omega (arith, apart q, count-append q ys (x ∷ xs));
        },
        record { seg = (ground arith, ground arith); distinct = λ q. ground arith },
      )
  where
    last_x : 0 < count (last_of x xs) (x ∷ xs)
    last_x = count-last_of x xs

    last_y : 0 < count (last_of head ys) (head ∷ ys)
    last_y = count-last_of head ys

    not_list : (q : ℕ) → 0 < count q (head ∷ ys) → (q == list) ≡ false
    not_list q h = ground (arith, apart q)

    no_entry : (q : ℕ) → 0 < count q (x ∷ xs) → (q == list) ≡ false
    no_entry q h = ground (arith, ring.distinct q)

    ends_apart : (last_of head ys == last_of x xs) ≡ false
    ends_apart =
        count-ne (last_of head ys) (last_of x xs) (head ∷ ys)
          (omega (arith, apart (last_of x xs), last_x)) last_y
