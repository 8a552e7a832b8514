-- ===== src/Wheel/Occurs.antt =====
-- How often an element hangs in the wheel, and that cascading moves entries and loses none.
use dmtimer.Base.{
  ℕ, ◌+◌, ◌≤◌, ◌<◌, ◌≡◌, refl, true, List, [], ◌∷◌, ◌++◌, arith, ◌==◌, hit, count, count-append,
  count_below, count_below-update, count_below-eq-zero, count_below-where, Bool-cases, inl, inr,
}
use dmtimer.Wheel.{
  Level, tv1, tv2, tv3, tv4, tv5, level_no, Slots, set_slot, Wheel, slot_of, add_timer_element,
  add_timer_elements, detach, cascade, cascade_from, upper_levels, cascades,
}
use dmtimer.Sink.{dm_index}
use dmtimer.Wheel.Due.{size, slot_of-lt-size}

-- the occurrences of `p` in all lists of the wheel
unfoldable pub occurs : ℕ → Slots → ℕ
occurs p tv =
    count_below p 256 (tv tv1)
    + count_below p 64 (tv tv2)
    + count_below p 64 (tv tv3)
    + count_below p 64 (tv tv4)
    + count_below p 64 (tv tv5)

-- Replacing the list of one slot exchanges its occurrences.
pub occurs-set_slot :
    (p : ℕ) (tv : Slots) (l : Level) (i : ℕ) (xs : List ℕ)
    → i < size l
    → occurs p (set_slot tv l i xs) + count p (tv l i) ≡ occurs p tv + count p xs
unfolding occurs
occurs-set_slot p tv tv1 i xs h = omega (arith, count_below-update p 256 (tv tv1) i xs h)
occurs-set_slot p tv tv2 i xs h = omega (arith, count_below-update p 64 (tv tv2) i xs h)
occurs-set_slot p tv tv3 i xs h = omega (arith, count_below-update p 64 (tv tv3) i xs h)
occurs-set_slot p tv tv4 i xs h = omega (arith, count_below-update p 64 (tv tv4) i xs h)
occurs-set_slot p tv tv5 i xs h = omega (arith, count_below-update p 64 (tv tv5) i xs h)

-- Adding an element adds one occurrence of it, and none of any other.
pub occurs-add_timer_element :
    (q p : ℕ) (w : Wheel) → occurs q (add_timer_element p w).slots ≡ occurs q w.slots + hit q p
unfolding add_timer_element
occurs-add_timer_element q p w =
    let (l, i) = slot_of (w.heap p).next_time w.last_time in
    omega (
      arith,
      occurs-set_slot q w.slots l i (w.slots l i ++ p ∷ [])
          (slot_of-lt-size (w.heap p).next_time w.last_time),
      count-append q (w.slots l i) (p ∷ []),
    )

pub occurs-add_timer_elements :
    (q : ℕ) (ps : List ℕ) (w : Wheel)
    → occurs q (add_timer_elements ps w).slots ≡ occurs q w.slots + count q ps
unfolding add_timer_elements
occurs-add_timer_elements q [] w = omega arith
occurs-add_timer_elements q (p ∷ ps) w =
    omega (
      arith,
      occurs-add_timer_elements q ps (add_timer_element p w),
      occurs-add_timer_element q p w,
    )

pub occurs-detach :
    (q : ℕ) (l : Level) (i : ℕ) (w : Wheel)
    → i < size l
    → occurs q (detach l i w).1.slots + count q (detach l i w).0 ≡ occurs q w.slots
unfolding detach
occurs-detach q l i w h = omega (arith, occurs-set_slot q w.slots l i [] h)

pub occurs-cascade :
    (q : ℕ) (l : Level) (i : ℕ) (w : Wheel)
    → i < size l
    → occurs q (cascade l i w).1.slots ≡ occurs q w.slots
unfolding cascade
occurs-cascade q l i w h =
    omega (
      arith,
      occurs-add_timer_elements q (detach l i w).0 (detach l i w).1,
      occurs-detach q l i w h,
    )

dm_index-lt-size : (l : Level) (t n : ℕ) → dm_index t n < size l
dm_index-lt-size tv1 t n = omega arith
dm_index-lt-size tv2 t n = omega arith
dm_index-lt-size tv3 t n = omega arith
dm_index-lt-size tv4 t n = omega arith
dm_index-lt-size tv5 t n = omega arith

occurs-cascade_from :
    (q : ℕ) (c : List (Level × ℕ)) (w : Wheel)
    → occurs q (cascade_from c w).slots ≡ occurs q w.slots
unfolding cascade_from
occurs-cascade_from q [] w = refl
occurs-cascade_from q ((l, n) ∷ rest) w =
    let i = dm_index w.last_time n in
    let w' = (cascade l i w).1 in
    ground (
      arith,
      occurs-cascade_from q rest w',
      occurs-cascade q l i w (dm_index-lt-size l w.last_time n),
    )

-- The cascades at the head of a round of `Run` conserve the entries: every element hangs in the
-- wheel exactly as often afterwards as before, whatever the times of the elements.
pub occurs-cascades : (q : ℕ) (w : Wheel) → occurs q (cascades w).slots ≡ occurs q w.slots
unfolding cascades
occurs-cascades q w = ground (arith, occurs-cascade_from q upper_levels w)

pub level_no-injective : (l l' : Level) → (level_no l' == level_no l) ≡ true → l' ≡ l
level_no-injective tv1 l' h = ground arith
level_no-injective tv2 l' h = ground arith
level_no-injective tv3 l' h = ground arith
level_no-injective tv4 l' h = ground arith
level_no-injective tv5 l' h = ground arith

-- An entry of a slot occurs in the wheel.
pub count-le-occurs :
    (p : ℕ) (tv : Slots) (l : Level) (i : ℕ) → i < size l → count p (tv l i) ≤ occurs p tv
count-le-occurs p tv l i h = omega (arith, occurs-set_slot p tv l i [] h)

-- Nothing occurs in an empty wheel.
pub occurs-empty : (q : ℕ) → occurs q (λ l i. []) ≡ 0
unfolding occurs
occurs-empty q = omega (
  arith,
  count_below-eq-zero q 256 (λ i. []) (λ i. refl),
  count_below-eq-zero q 64 (λ i. []) (λ i. refl),
)

-- What occurs in the wheel occurs in a slot.
pub occurs-where :
    (p : ℕ) (tv : Slots) → 0 < occurs p tv → (l : Level) × (i : ℕ) × (0 < count p (tv l i))
unfolding occurs
occurs-where p tv h = in_level tv1 256 λ n1. in_level tv2 64 λ n2.
    in_level tv3 64 λ n3.
      in_level tv4 64 λ n4. in_level tv5 64 λ n5. absurd (omega (arith, h, n1, n2, n3, n4, n5))
  where
    in_level :
        (l : Level) (n : ℕ)
        → (count_below p n (tv l) ≡ 0 → (l : Level) × (i : ℕ) × (0 < count p (tv l i)))
        → (l : Level) × (i : ℕ) × (0 < count p (tv l i))
    in_level l n next = elim (Bool-cases (0 == count_below p n (tv l))) [
      | inl e ↦ next (ground (arith, e))
      | inr ne ↦ let (i, c) = count_below-where p n (tv l) (ground (arith, ne)) in (l, i, c)
    ]
