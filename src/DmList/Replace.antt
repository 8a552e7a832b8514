-- ===== src/DmList/Replace.antt =====
-- `list_replace_init` hands a ring over to another head and leaves the old head with an empty ring.
use dmtimer.Base.{ℕ, ◌≤◌, ◌<◌, ◌≡◌, ◌≢◌, ◌∙◌, false, List, [], ◌∷◌, arith, ◌==◌, count, ==_self}
use dmtimer.DmList.{Links, init_list_head, list_replace, list_replace_init}
use dmtimer.DmList.Ring.{Seg, IsRing, last_of, last_of-Seg, count-last_of, count-ne}

-- A segment with another end: only the pointers around the end change.
pub Seg-end :
    (m m' : Links) (a b c : ℕ) (xs : List ℕ)
    → ((q : ℕ) → 0 < count q (a ∷ xs) → q ≢ last_of a xs → m'.next q ≡ m.next q)
    → ((q : ℕ) → count q (a ∷ xs) ≤ 1)
    → m'.next (last_of a xs) ≡ c
    → m'.prev c ≡ last_of a xs
    → ((q : ℕ) → 0 < count q xs → m'.prev q ≡ m.prev q)
    → Seg m a xs b
    → Seg m' a xs c
Seg-end m m' a b c [] hn d hl hc hp s = (hl, hc)
Seg-end m m' a b c (x ∷ xs) hn d hl hc hp s = (
  hn a (ground arith) (λ e. no (d a) (count-last_of x xs) e) ∙ s.0,
  hp x (ground arith) ∙ s.1,
  Seg-end m m' x b c xs (λ q h ne. hn q (ground arith) ne) (λ q. ground (arith, d q)) hl hc
      (λ q h. hp q (ground arith)) s.2,
)
  where
    no : count a (a ∷ x ∷ xs) ≤ 1 → 0 < count (last_of x xs) (x ∷ xs) → ¬ (a ≡ last_of x xs)
    no once there e = ground (arith, rw (← e) at there)

-- If a ring of distinct entries hangs from `old`, and `newone` is neither `old` nor one of them,
-- then after `list_replace_init` the same entries hang from `newone` in the same order, and the
-- ring of `old` is empty.
pub list_replace_init-IsRing :
    (m : Links) (old newone : ℕ) (xs : List ℕ)
    → IsRing m old xs
    → count newone (old ∷ xs) ≡ 0
    → IsRing (list_replace_init old newone m) newone xs
      × IsRing (list_replace_init old newone m) old []
unfolding list_replace_init list_replace init_list_head
list_replace_init-IsRing m old newone [] ring new =
    rw (ring.seg.0, ring.seg.1)
      (
        record { seg = (ground (arith, new), ground (arith, new)); distinct = λ q. ground arith },
        record { seg = (ground (arith, new), ground (arith, new)); distinct = λ q. ground arith },
      )
list_replace_init-IsRing m old newone (x ∷ xs) ring new =
    rw (ring.seg.0, ==_self newone, old_x, last_of-Seg m x old xs ring.seg.2)
      (
        record {
          seg = (
            ground (arith, new, there),
            ground (arith, new, ring.distinct x),
            Seg-end m _ x old newone xs
                (λ q h ne. ground (arith, new, ring.distinct old, ring.distinct q, other q h))
                (λ q. omega (arith, ring.distinct q))
                (ground (arith, new, there, ring.distinct old)) (ground (arith, new))
                (λ q h. ground (
                  arith,
                  new,
                  ring.distinct q,
                  ring.distinct x,
                  ring.distinct old,
                  other q (omega arith),
                ))
                ring.seg.2,
          );
          distinct = λ q. ground (arith, new, ring.distinct q);
        },
        record { seg = (ground (arith, new), ground (arith, new)); distinct = λ q. ground arith },
      )
  where
    there : 0 < count (last_of x xs) (x ∷ xs)
    there = count-last_of x xs

    old_x : (old == x) ≡ false
    old_x = ground (arith, ring.distinct old)

    other : (q : ℕ) → 0 < count q (x ∷ xs) → q ≢ newone
    other q h e = ground (arith, e, count-ne q newone (x ∷ xs) (omega (arith, new)) h)
