-- ===== src/Wheel/OnTime.antt =====
-- What `Run` finds at a tick: after the cascades the slot of the tick in `m_tv1` holds exactly the
-- elements that expire at it.
use dmtimer.Base.{
  ℕ, ◌<◌, ◌≡◌, refl, sym, ◌∙◌, inl, inr, [], arith, ◌==◌, if◌then◌else◌, Bool-cases, ==→eq, count,
  count_below-eq-zero,
}
use dmtimer.Sink.{tvr_mask}
use dmtimer.Wheel.{Level, tv1, tv2, tv3, tv4, tv5, set_slot, Wheel, cascades, Slots}
use dmtimer.Wheel.Due.{Due, size}
use dmtimer.Wheel.Occurs.{occurs, occurs-set_slot, occurs-cascades}
use dmtimer.Wheel.Timely.{expiry, IsTimely, set_slot-cases}
use dmtimer.Wheel.Kept.{SameBut, expiry-SameBut, cascades-SameBut}
use dmtimer.Wheel.Cascade.{stage, cascades-IsTimely}

-- After the cascades only the slot of the tick holds entries that expire at the tick.
slot_of_now :
    (last : ℕ) (l : Level) (i e : ℕ)
    → Due (stage 5 last l) last l i e
    → e ≡ last
    → (l ≡ tv1) × (i ≡ tvr_mask last)
slot_of_now last tv1 i e d h = (refl, omega arith)
slot_of_now last tv2 i e d h = absurd (omega arith)
slot_of_now last tv3 i e d h = absurd (omega arith)
slot_of_now last tv4 i e d h = absurd (omega arith)
slot_of_now last tv5 i e d h = absurd (omega arith)

eq-zero_of_not_pos : (n : ℕ) → ¬ (0 < n) → n ≡ 0
eq-zero_of_not_pos n h = omega arith

-- An element without an occurrence in any slot does not occur in the wheel.
occurs-eq-zero :
    (p : ℕ) (tv : Slots) → ((l : Level) (i : ℕ) → count p (tv l i) ≡ 0) → occurs p tv ≡ 0
unfolding occurs
occurs-eq-zero p tv h = omega (
  arith,
  count_below-eq-zero p 256 (tv tv1) (h tv1),
  count_below-eq-zero p 64 (tv tv2) (h tv2),
  count_below-eq-zero p 64 (tv tv3) (h tv3),
  count_below-eq-zero p 64 (tv tv4) (h tv4),
  count_below-eq-zero p 64 (tv tv5) (h tv5),
)

-- If all entries of `p` hang in one slot, that slot holds all occurrences of `p`.
occurs-eq-count :
    (p : ℕ) (tv : Slots) (l : Level) (i : ℕ)
    → i < size l
    → ((l' : Level) (i' : ℕ) → 0 < count p (tv l' i') → (l' ≡ l) × (i' ≡ i))
    → occurs p tv ≡ count p (tv l i)
occurs-eq-count p tv l i h only = omega (arith, occurs-set_slot p tv l i [] h, nothing)
  where
    empty : (l' : Level) (i' : ℕ) → count p (set_slot tv l i [] l' i') ≡ 0
    empty l' i' = elim (set_slot-cases tv l i [] l' i') [
      | inl (el, ei, es) ↦ rw es
      | inr (inl (el, ni, es)) ↦ rw es (eq-zero_of_not_pos _ (λ c. ni (only l' i' c).1))
      | inr (inr (nl, es)) ↦ rw es (eq-zero_of_not_pos _ (λ c. nl (only l' i' c).0))
    ]

    nothing : occurs p (set_slot tv l i []) ≡ 0
    nothing = occurs-eq-zero p (set_slot tv l i []) empty

-- If every entry of the wheel is due where it hangs, then after the cascades of a round the slot of
-- the tick `m_qwLastTime` in `m_tv1` holds each element as often as the whole wheel held it before
-- if the element expires at this tick, and else not at all.
pub slot_of_tick-exact :
    (w : Wheel) (p : ℕ)
    → IsTimely (stage 1 w.last_time) w
    → count p ((cascades w).slots tv1 (tvr_mask w.last_time))
      ≡ (if expiry w p == w.last_time then occurs p w.slots else 0)
slot_of_tick-exact w p t = elim (Bool-cases (expiry w p == w.last_time)) [
  | inl now ↦ rw now (
      sym (
        occurs-eq-count p w'.slots tv1 i (omega arith)
          λ l i' h. slot_of_now w.last_time l i' (expiry w p) (entry l i' h) (==→eq _ _ now))
      ∙ occurs-cascades p w)
  | inr later ↦ rw later (eq-zero_of_not_pos _ λ h. ground (arith, entry tv1 i h))
]
  where
    w' : Wheel
    w' = cascades w

    i : ℕ
    i = tvr_mask w.last_time

    same : SameBut w w'
    same = cascades-SameBut w

    entry :
        (l : Level) (i' : ℕ)
        → 0 < count p (w'.slots l i')
        → Due (stage 5 w.last_time l) w.last_time l i' (expiry w p)
    entry l i' h =
        rw (same.last_time, expiry-SameBut p same) at ((cascades-IsTimely w t).due l i' p h)
