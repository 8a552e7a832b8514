-- ===== src/DmList/Cut.antt =====
-- `list_cut_position` cuts a ring in two behind an entry.
use dmtimer.Base.{
  ℕ, ◌+◌, ◌≤◌, ◌<◌, ◌≡◌, refl, false, List, [], ◌∷◌, ◌++◌, arith, ◌==◌, count, count-append, hit,
  once_more, ==_self, Bool, ◌&&◌, if◌then◌else◌,
}
use dmtimer.DmList.{Links, list_cut, list_cut_position, list_is_singular}
use dmtimer.DmList.Ring.{
  Seg, Seg-same, Seg-split, Seg-append, IsRing, last_of, last_of-Seg, count-last_of,
  list_empty-IsRing,
}

-- the addresses of both rings, each at most once
abbrev Distinct : ℕ → ℕ → List ℕ → ℕ → List ℕ → Type 0
Distinct list head xs e ys =
    (q : ℕ) → hit q list + hit q head + count q xs + (hit q e + count q ys) ≤ 1

-- what comes behind the entry
behind :
    (m : Links) (e head : ℕ) (ys : List ℕ)
    → Seg m e ys head
    → 0 < hit (m.next e) head + count (m.next e) ys
behind m e head [] r = rw (r.0, ==_self head) (omega arith)
behind m e head (y ∷ ys) r = rw (r.0, ==_self y) (omega arith)

-- The entries up to `e` hang from the new head.
front :
    (m : Links) (list head e : ℕ) (xs ys : List ℕ)
    → Distinct list head xs e ys
    → Seg m head xs e
    → Seg m e ys head
    → Seg (list_cut list head e m) list (xs ++ e ∷ []) list
unfolding list_cut
front m list head e [] ys d s r =
    let g = behind m e head ys r in
    let dg = d (m.next e) in
    rw (==_self list, s.0)
      (
        ground (arith, d list, d e),
        ground (arith, d e, g, dg),
        (ground (arith, d e), ground (arith, d list, g, dg)),
      )
front m list head e (x ∷ xs) ys d s r =
    let g = behind m e head ys r in
    let dg = d (m.next e) in
    (
      rw s.0 (ground (arith, d list)),
      rw (==_self list, s.0) (ground (arith, d x, g, dg)),
      Seg-append (list_cut list head e m) x e list xs []
          (Seg-same m (list_cut list head e m) x e xs (λ q h. ground (arith, d q))
            (λ q h.
              rw (==_self list, s.0) (ground (arith, d q, d x, g, dg, count-append q xs (e ∷ []))))
            s.2)
          (ground (arith, d e), ground (arith, d list, g, dg)),
    )

-- The entries behind `e` stay with the old head.
back :
    (m : Links) (list head e : ℕ) (xs ys : List ℕ)
    → Distinct list head xs e ys
    → Seg m head xs e
    → Seg m e ys head
    → Seg (list_cut list head e m) head ys head
unfolding list_cut
back m list head e xs [] d s r =
    rw (==_self list, r.0) (ground (arith, d head), ground (arith, d head))
back m list head e [] (y ∷ ys) d s r = (
  rw r.0 (ground (arith, d head)),
  rw r.0 (ground (arith, d y)),
  Seg-same m (list_cut list head e m) y head ys (λ q h. ground (arith, d q))
      (λ q h. rw (==_self list, s.0, r.0) (ground (arith, d q, d y, count-append q ys (head ∷ []))))
      r.2,
)
back m list head e (x ∷ xs) (y ∷ ys) d s r = (
  rw r.0 (ground (arith, d head)),
  rw r.0 (ground (arith, d y)),
  Seg-same m (list_cut list head e m) y head ys (λ q h. ground (arith, d q))
      (λ q h. rw (==_self list, s.0, r.0) (ground (arith, d q, d y, count-append q ys (head ∷ []))))
      r.2,
)

-- The guards let an entry of the ring pass.
cuts :
    (m : Links) (list head e : ℕ) (xs ys : List ℕ)
    → IsRing m head (xs ++ e ∷ ys)
    → Distinct list head xs e ys
    → list_cut_position list head e m ≡ list_cut list head e m
unfolding list_cut_position list_is_singular
cuts m list head e [] ys ring d =
    let eh : (e == head) ≡ false = ground (arith, d e) in
    rw (list_empty-IsRing m head (e ∷ ys) ring, ring.seg.0, ==_self e, eh)
      (same_either_way (e == m.prev head) _)
  where
    same_either_way : (b : Bool) (x : Links) → (if b && false then m else x) ≡ x
    same_either_way b x = ground arith
cuts m list head e (x ∷ xs) ys ring d =
    let eh : (e == head) ≡ false = ground (arith, d e) in
    let (before, after) = Seg-split m head e head (x ∷ xs) ys ring.seg in
    let last : 0 < count (last_of e ys) (e ∷ ys) = count-last_of e ys in
    let apart : (x == m.prev head) ≡ false =
      rw (last_of-Seg m e head ys after) (ground (arith, d x, d (last_of e ys), last)) in
    rw (list_empty-IsRing m head (x ∷ (xs ++ e ∷ ys)) ring, ring.seg.0, apart, eh) refl

-- `list_cut_position` at an entry of a ring of distinct entries, with a `list` that is neither the
-- head nor an entry, moves the entries up to this one, itself included, to the ring of `list` and
-- leaves the others with the head, both in their order.
pub list_cut_position-IsRing :
    (m : Links) (list head e : ℕ) (xs ys : List ℕ)
    → IsRing m head (xs ++ e ∷ ys)
    → count list (head ∷ (xs ++ e ∷ ys)) ≡ 0
    → IsRing (list_cut_position list head e m) list (xs ++ e ∷ [])
      × IsRing (list_cut_position list head e m) head ys
list_cut_position-IsRing m list head e xs ys ring new =
    let d : Distinct list head xs e ys = λ q. omega (
      arith,
      once_more (λ v. count v (head ∷ (xs ++ e ∷ ys))) list q new (ring.distinct q),
      count-append q xs (e ∷ ys),
    ) in
    let (before, after) = Seg-split m head e head xs ys ring.seg in
    rw (cuts m list head e xs ys ring d) (
      record {
        seg = front m list head e xs ys d before after;
        distinct = λ q. omega (arith, d q, count-append q xs (e ∷ []));
      },
      record { seg = back m list head e xs ys d before after; distinct = λ q. omega (arith, d q) },
    )
