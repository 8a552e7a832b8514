-- ===== src/DmList/Ring.antt =====
-- A ring of entries behind a head stands for a sequence, and the operations of include/dmlist.h do on the
-- ring what they are to do on the sequence.
use mathlib.Core.Path.{subst}
use dmtimer.Base.{
  ℕ, ◌+◌, ◌≤◌, ◌<◌, ◌≡◌, ◌≢◌, refl, ap, sym, ◌∙◌, ◌⊎◌, inl, inr, true, false, Bool, List, [], ◌∷◌,
  ◌++◌, arith, ◌==◌, count, count-append, hit, Bool-cases, ==→eq, ==_self,
}
use dmtimer.DmList.{Links, list_insert, list_add, list_add_tail, list_empty}

-- From `a` the pointers lead through `xs` to `b`, and back.
abbrev pub Seg : Links → ℕ → List ℕ → ℕ → Type 0
Seg m a [] b = (m.next a ≡ b) × (m.prev b ≡ a)
Seg m a (x ∷ xs) b = (m.next a ≡ x) × (m.prev x ≡ a) × Seg m x xs b

abbrev pub last_of : ℕ → List ℕ → ℕ
last_of a [] = a
last_of a (x ∷ xs) = last_of x xs

-- The ring behind `head` holds `xs`: the entries and the head are distinct.
pub record IsRing (m : Links) (head : ℕ) (xs : List ℕ) : Type 0 where
  pub seg : Seg m head xs head
  pub distinct : (q : ℕ) → count q (head ∷ xs) ≤ 1

pub last_of-Seg : (m : Links) (a b : ℕ) (xs : List ℕ) → Seg m a xs b → m.prev b ≡ last_of a xs
last_of-Seg m a b [] s = s.1
last_of-Seg m a b (x ∷ xs) s = last_of-Seg m x b xs s.2

pub count-last_of : (a : ℕ) (xs : List ℕ) → 0 < count (last_of a xs) (a ∷ xs)
count-last_of a [] = ground arith
count-last_of a (x ∷ xs) = ground (arith, count-last_of x xs)

-- A segment survives changes of `next` at an address that is not before its end, and of `prev` at one that
-- is not behind its start.
pub Seg-same :
    (m m' : Links) (a b : ℕ) (xs : List ℕ)
    → ((q : ℕ) → 0 < count q (a ∷ xs) → m'.next q ≡ m.next q)
    → ((q : ℕ) → 0 < count q (xs ++ b ∷ []) → m'.prev q ≡ m.prev q)
    → Seg m a xs b
    → Seg m' a xs b
Seg-same m m' a b [] hn hp s = (hn a (ground arith) ∙ s.0, hp b (ground arith) ∙ s.1)
Seg-same m m' a b (x ∷ xs) hn hp s = (
  hn a (ground arith) ∙ s.0,
  hp x (ground arith) ∙ s.1,
  Seg-same m m' x b xs (λ q h. hn q (ground arith)) (λ q h. hp q (ground arith)) s.2,
)

-- segments in a row
pub Seg-append :
    (m : Links) (a x b : ℕ) (xs ys : List ℕ)
    → Seg m a xs x
    → Seg m x ys b
    → Seg m a (xs ++ x ∷ ys) b
Seg-append m a x b [] ys s r = (s.0, s.1, r)
Seg-append m a x b (y ∷ xs) ys s r = (s.0, s.1, Seg-append m y x b xs ys s.2 r)

-- the part of a segment before its last pointer
pub Seg-split :
    (m : Links) (a x b : ℕ) (xs ys : List ℕ)
    → Seg m a (xs ++ x ∷ ys) b
    → Seg m a xs x × Seg m x ys b
Seg-split m a x b [] ys s = ((s.0, s.1), s.2)
Seg-split m a x b (y ∷ xs) ys s = let (l, r) = Seg-split m y x b xs ys s.2 in ((s.0, s.1, l), r)

last-cases : (xs : List ℕ) → (xs ≡ []) ⊎ ((ys : List ℕ) × (l : ℕ) × (xs ≡ ys ++ l ∷ []))
last-cases [] = inl refl
last-cases (x ∷ xs) = elim (last-cases xs) [
  | inl e ↦ inr ([], x, ap (λ t. x ∷ t) e)
  | inr (ys, l, e) ↦ inr (x ∷ ys, l, ap (λ t. x ∷ t) e)
]

pub count-ne : (q a : ℕ) (xs : List ℕ) → count a xs ≡ 0 → 0 < count q xs → (q == a) ≡ false
count-ne q a xs none some_q = elim (Bool-cases (q == a)) [
  | inr n ↦ n
  | inl e ↦ absurd (impossible (rw (==→eq q a e) at some_q))
]
  where
    impossible : ¬ (0 < count a xs)
    impossible h = omega arith

-- `__list_add` between two neighbours
pub Seg-list_insert :
    (m : Links) (n a b : ℕ) → n ≢ a → n ≢ b → Seg (list_insert n a b m) a (n ∷ []) b
unfolding list_insert
Seg-list_insert m n a b na nb = (ground arith, ground arith, (ground arith, ground arith))

append-snoc : (ys : List ℕ) (l n : ℕ) → (ys ++ l ∷ []) ++ n ∷ [] ≡ ys ++ l ∷ n ∷ []
append-snoc [] l n = refl
append-snoc (y ∷ ys) l n = ap (λ t. y ∷ t) (append-snoc ys l n)

count_snoc : (q : ℕ) (ys : List ℕ) (l : ℕ) → count q (ys ++ l ∷ []) ≡ count q ys + hit q l
count_snoc q ys l = omega (arith, count-append q ys (l ∷ []))

-- An entry that is put between two neighbours leaves the pointers before it alone.
Seg-before :
    (m : Links) (n a b head : ℕ) (ys : List ℕ)
    → count a (head ∷ ys) ≡ 0
    → count n (head ∷ ys) ≡ 0
    → count n (ys ++ a ∷ []) ≡ 0
    → count b (ys ++ a ∷ []) ≡ 0
    → Seg m head ys a
    → Seg (list_insert n a b m) head ys a
unfolding list_insert
Seg-before m n a b head ys ha hn hn' hb s =
    Seg-same m _ head a ys
      (λ q h. rw (count-ne q a (head ∷ ys) ha h, count-ne q n (head ∷ ys) hn h) refl)
      (λ q h. rw (count-ne q n (ys ++ a ∷ []) hn' h, count-ne q b (ys ++ a ∷ []) hb h) refl) s

-- `list_add_tail` of an address that is neither the head nor an entry of the ring appends it to the
-- sequence of the entries.
pub list_add_tail-IsRing :
    (m : Links) (n head : ℕ) (xs : List ℕ)
    → IsRing m head xs
    → count n (head ∷ xs) ≡ 0
    → IsRing (list_add_tail n head m) head (xs ++ n ∷ [])
unfolding list_add_tail
list_add_tail-IsRing m n head xs ring new = record {
  seg = elim (last-cases xs) [
    | inl e ↦
        rw (e, (rw e at ring.seg).1) (Seg-list_insert m n head head (ground arith) (ground arith))
    | inr (ys, l, e) ↦
        let (before, tail) = Seg-split m head l head ys [] (rw e at ring.seg) in
        let counts : (q : ℕ) → count q xs ≡ count q ys + hit q l = λ q. rw e (count_snoc q ys l) in
        rw (e, tail.1, append-snoc ys l n)
          (Seg-append _ head l head ys (n ∷ [])
            (Seg-before m n l head head ys (ground (arith, counts l, ring.distinct l))
              (omega (arith, counts n, new)) (rw count_snoc (omega (arith, counts n, new)))
              (rw count_snoc (ground (arith, counts head, ring.distinct head))) before)
            (Seg-list_insert m n l head (ground (arith, counts n, new)) (ground (arith, new))))
  ];
  distinct = λ q. ground (arith, ring.distinct q, count-append q xs (n ∷ []));
}

-- An entry that is put between two neighbours leaves the pointers behind it alone.
Seg-behind :
    (m : Links) (n a x b : ℕ) (xs : List ℕ)
    → count a (x ∷ xs) ≡ 0
    → count n (x ∷ xs) ≡ 0
    → count x (xs ++ b ∷ []) ≡ 0
    → count n (xs ++ b ∷ []) ≡ 0
    → Seg m x xs b
    → Seg (list_insert n a x m) x xs b
unfolding list_insert
Seg-behind m n a x b xs ha hn hx hn' s =
    Seg-same m _ x b xs (λ q h. rw (count-ne q a (x ∷ xs) ha h, count-ne q n (x ∷ xs) hn h) refl)
      (λ q h. rw (count-ne q n (xs ++ b ∷ []) hn' h, count-ne q x (xs ++ b ∷ []) hx h) refl) s

-- `list_add` of an address that is neither the head nor an entry of the ring puts it in front of
-- the sequence of the entries.
pub list_add-IsRing :
    (m : Links) (n head : ℕ) (xs : List ℕ)
    → IsRing m head xs
    → count n (head ∷ xs) ≡ 0
    → IsRing (list_add n head m) head (n ∷ xs)
unfolding list_add
list_add-IsRing m n head [] ring new = record {
  seg = rw ring.seg.0 (Seg-list_insert m n head head (ground (arith, new)) (ground (arith, new)));
  distinct = λ q. ground (arith, new);
}
list_add-IsRing m n head (x ∷ xs) ring new = record {
  seg =
      let s = Seg-list_insert m n head x (ground (arith, new)) (ground (arith, new)) in
      let e : list_insert n head x m ≡ list_add n head m =
        ap (λ y. list_insert n head y m) (sym ring.seg.0) in
      subst (λ v. Seg v head (n ∷ x ∷ xs) head) e
        (
          s.0,
          s.1,
          (
            s.2.0,
            s.2.1,
            Seg-behind m n head x head xs (ground (arith, ring.distinct head)) (omega (arith, new))
                (rw count_snoc (ground (arith, ring.distinct x)))
                (rw count_snoc (omega (arith, new))) ring.seg.2,
          ),
        );
  distinct = λ q. ground (arith, new, ring.distinct q);
}

abbrev pub is_nil : List ℕ → Bool
is_nil [] = true
is_nil (x ∷ xs) = false

-- On a ring, `list_empty` tells whether the sequence of the entries is empty.
pub list_empty-IsRing :
    (m : Links) (head : ℕ) (xs : List ℕ) → IsRing m head xs → list_empty head m ≡ is_nil xs
unfolding list_empty
list_empty-IsRing m head [] ring = rw (ring.seg.0, ==_self head) refl
list_empty-IsRing m head (x ∷ xs) ring = rw ring.seg.0 (ground (arith, ring.distinct head))
