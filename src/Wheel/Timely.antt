-- ===== src/Wheel/Timely.antt =====
-- The invariant of the wheel: every entry is due in the slot where it hangs. Adding an element keeps
-- it, and the cascades at the head of a round of `Run` bring down every block that starts there.
use dmtimer.Base.{
  ℕ, ◌+◌, ◌^◌, ◌≤◌, ◌<◌, ◌≡◌, ◌≢◌, ap, refl, ◌⊎◌, inl, inr, List, [], ◌∷◌, ◌++◌, arith, ◌==◌,
  Bool-cases, ==→eq, count, count-append,
}
use dmtimer.Wheel.{Level, level_no, Slots, set_slot, Wheel, slot_of, add_timer_element}
use dmtimer.Wheel.Due.{Due, Due-mono, Ahead, slot_of-Due}
use dmtimer.Wheel.Occurs.{level_no-injective}

abbrev pub expiry : Wheel → ℕ → ℕ
expiry w p = (w.heap p).next_time

-- `from l` is where the blocks of vector `l` may start. Times stay below 2 ^ 63.
pub record IsTimely (from : Level → ℕ) (w : Wheel) : Type 0 where
  pub due :
      (l : Level) (i p : ℕ) → 0 < count p (w.slots l i) → Due (from l) w.last_time l i (expiry w p)
  pub soon : (l : Level) (i p : ℕ) → 0 < count p (w.slots l i) → expiry w p < 2 ^ 63

-- What a slot holds after one slot is replaced: the new list there, the old one elsewhere.
pub set_slot-cases :
    (tv : Slots) (l : Level) (i : ℕ) (xs : List ℕ) (l' : Level) (i' : ℕ)
    → ((l' ≡ l) × (i' ≡ i) × (set_slot tv l i xs l' i' ≡ xs))
      ⊎ ((l' ≡ l) × (i' ≢ i) × (set_slot tv l i xs l' i' ≡ tv l' i'))
      ⊎ ((l' ≢ l) × (set_slot tv l i xs l' i' ≡ tv l' i'))
set_slot-cases tv l i xs l' i' = elim (Bool-cases (level_no l' == level_no l)) [
  | inl e ↦ elim (Bool-cases (i' == i)) [
    | inl e' ↦ inl (level_no-injective l l' e, ==→eq i' i e', rw (e, e'))
    | inr n' ↦ inr (inl (level_no-injective l l' e, ground arith, rw (e, n')))
  ]
  | inr n ↦ inr (inr (λ e. ground (arith, ap level_no e), rw n))
]

-- An element that is appended to a slot is the only new entry there.
mem-append_one : (q p : ℕ) (xs : List ℕ) → 0 < count q (xs ++ p ∷ []) → (q ≢ p) → 0 < count q xs
mem-append_one q p xs h n = ground (arith, count-append q xs (p ∷ []))

pub expiry-add_timer_element : (q p : ℕ) (w : Wheel) → expiry (add_timer_element p w) q ≡ expiry w q
unfolding add_timer_element
expiry-add_timer_element q p w = ground arith

pub last_time-add_timer_element :
    (p : ℕ) (w : Wheel) → (add_timer_element p w).last_time ≡ w.last_time
unfolding add_timer_element
last_time-add_timer_element p w = refl

-- What is claimed of every entry carries over to an added element of which it holds.
pub add_timer_element-entries {ℓ} :
    (P : Level → ℕ → ℕ → Type ℓ) (p : ℕ) (w : Wheel)
    → ((l : Level) (i q : ℕ) → 0 < count q (w.slots l i) → P l i q)
    → P (slot_of (expiry w p) w.last_time).0 (slot_of (expiry w p) w.last_time).1 p
    → (l : Level) (i q : ℕ) → 0 < count q ((add_timer_element p w).slots l i)
    → P l i q
unfolding add_timer_element
add_timer_element-entries P p w old new l i q h =
    let (l0, i0) = slot_of (expiry w p) w.last_time in
    elim (set_slot-cases w.slots l0 i0 (w.slots l0 i0 ++ p ∷ []) l i) [
      | inl (el, ei, es) ↦ elim (Bool-cases (q == p)) [
        | inl e ↦ rw (el, ei, ==→eq q p e) new
        | inr n ↦
            old l i q (rw (el, ei) (mem-append_one q p (w.slots l0 i0) (rw es at h) (ground arith)))
      ]
      | inr (inl (el, ni, es)) ↦ old l i q (rw es at h)
      | inr (inr (nl, es)) ↦ old l i q (rw es at h)
    ]

-- `AddTimerElement` of an element that expires at `m_qwLastTime` or later, and below 2 ^ 63, keeps
-- every entry due where it hangs, for any bounds of the blocks that are not behind the tick after
-- `m_qwLastTime`.
pub add_timer_element-IsTimely :
    (from : Level → ℕ) (p : ℕ) (w : Wheel)
    → ((l : Level) → from l ≤ w.last_time + 1)
    → Ahead w.last_time (expiry w p)
    → IsTimely from w
    → IsTimely from (add_timer_element p w)
add_timer_element-IsTimely from p w low a t = record {
  due = λ l i q h.
      rw (expiry-add_timer_element, last_time-add_timer_element)
        (add_timer_element-entries (λ l i q. Due (from l) w.last_time l i (expiry w q)) p w t.due
          (Due-mono _ _ _ _ _ _ (low _) (slot_of-Due (expiry w p) w.last_time a)) l i q h);
  soon = λ l i q h.
      rw expiry-add_timer_element
        (add_timer_element-entries (λ l i q. expiry w q < 2 ^ 63) p w t.soon a.below l i q h);
}
