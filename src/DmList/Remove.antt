-- ===== src/DmList/Remove.antt =====
-- `list_del` takes one entry out of a ring and leaves the others in order.
use mathlib.Core.Path.{subst}
use dmtimer.Base.{
  ℕ, ◌+◌, ◌≤◌, ◌<◌, ◌≡◌, refl, sym, List, [], ◌∷◌, ◌++◌, arith, count, count-append, hit, ==_self,
}
use dmtimer.DmList.{Links, list_poison1, list_poison2, list_unlink, list_del}
use dmtimer.DmList.Ring.{Seg, Seg-same, Seg-split, IsRing, last_of-Seg, count-last_of}

first-Seg : (m : Links) (x b : ℕ) (zs : List ℕ) → Seg m x zs b → 0 < count (m.next x) (zs ++ b ∷ [])
first-Seg m x b [] s = rw s.0 (ground arith)
first-Seg m x b (z ∷ zs) s = rw s.0 (ground arith)

-- What holds `next` pointers up to `x`, and what holds `prev` pointers from the first entry to the end.
Seg-list_del :
    (m : Links) (a x b : ℕ) (ys zs : List ℕ)
    → ((q : ℕ) → count q (a ∷ ys) + hit q x + count q zs ≤ 1)
    → ((q : ℕ) → count q ys + hit q x + count q (zs ++ b ∷ []) ≤ 1)
    → Seg m a ys x
    → Seg m x zs b
    → Seg (list_del x m) a (ys ++ zs) b
unfolding list_del list_unlink
Seg-list_del m a x b [] [] d d' s r =
    rw (s.1, r.0) (ground (arith, d a, d' b), ground (arith, d a, d' b))
Seg-list_del m a x b [] (z ∷ zs) d d' s r =
    rw (s.1, r.0)
      (
        ground (arith, d a),
        ground (arith, d' z),
        Seg-same m _ z b zs (λ q h. ground (arith, d a, d x, d q))
            (λ q h. ground (arith, d' z, d' x, d' q)) r.2,
      )
Seg-list_del m a x b (y ∷ ys) zs d d' s r = (
  ground (arith, d (m.prev x), d a, before),
  ground (arith, d' y, d' (m.next x), first-Seg m x b zs r),
  Seg-list_del m y x b ys zs (λ q. omega (arith, d q)) (λ q. omega (arith, d' q)) s.2 r,
)
  where
    before : 0 < count (m.prev x) (y ∷ ys)
    before = subst (λ v. 0 < count v (y ∷ ys)) (sym (last_of-Seg m y x ys s.2)) (count-last_of y ys)

count-middle :
    (q x : ℕ) (ys zs : List ℕ) → count q (ys ++ x ∷ zs) ≡ count q ys + hit q x + count q zs
count-middle q x ys zs = omega (arith, count-append q ys (x ∷ zs))

-- `list_del` of an entry of a ring of distinct entries takes this entry out of the sequence, leaves
-- the others in order, and poisons both pointers of the entry.
pub list_del-IsRing :
    (m : Links) (x head : ℕ) (ys zs : List ℕ)
    → IsRing m head (ys ++ x ∷ zs)
    → IsRing (list_del x m) head (ys ++ zs)
      × ((list_del x m).next x ≡ list_poison1)
      × ((list_del x m).prev x ≡ list_poison2)
unfolding list_del
list_del-IsRing m x head ys zs ring =
    let (before, behind) = Seg-split m head x head ys zs ring.seg in
    let entries : (q : ℕ) → hit q head + (count q ys + hit q x + count q zs) ≤ 1 =
      λ q. omega (arith, ring.distinct q, count-middle q x ys zs) in
    (
      record {
        seg =
            Seg-list_del m head x head ys zs (λ q. omega (arith, entries q))
              (λ q. omega (arith, entries q, count-append q zs (head ∷ []))) before behind;
        distinct = λ q. omega (arith, entries q, count-append q ys zs);
      },
      rw (==_self x) refl,
      rw (==_self x) refl,
    )
