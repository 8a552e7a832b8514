-- ===== src/Wheel/Tests.antt =====
-- The theorems on the wheel at a concrete wheel, with one element that hangs in the second vector.
use dmtimer.Base.{
  sym, inl, inr, Bool-cases, ==→eq, ℕ, ◌<◌, ◌≡◌, refl, false, none, [], ◌∷◌, arith, if◌then◌else◌,
  ◌==◌, count,
}
use dmtimer.Sink.{Element, tvr_mask}
use dmtimer.Wheel.{
  Level, tv1, tv2, tv3, tv4, tv5, Slots, Wheel, slot_of, add_timer_element, add_timer_elements,
  cascades, cascade_from, cascade, detach,
}
use dmtimer.Wheel.Due.{Due, slot_of-Due}
use dmtimer.Wheel.Occurs.{occurs, occurs-cascades}
use dmtimer.Wheel.Timely.{expiry, IsTimely}
use dmtimer.Wheel.Cascade.{stage, cascades-IsTimely}
use dmtimer.Wheel.OnTime.{slot_of_tick-exact}

abbrev at_time : ℕ → Element
at_time t = record {
  linked = false;
  next_time = t;
  cd = 10;
  id = 1;
  timer_sink = none;
  fun_timer = none;
  any = none;
  cron = [];
  erased = false;
  exact = false;
}

-- the last time is 200, and element `p` expires at 256
abbrev empty : Wheel
empty = record { heap = λ p. at_time 256; last_time = 200; slots = λ l i. [] }

abbrev hanging : Slots
hanging tv1 i = []
hanging tv2 i = if i == 1 then 7 ∷ [] else []
hanging tv3 i = []
hanging tv4 i = []
hanging tv5 i = []

-- the last time is 256, and element 7, which expires at 256, hangs where it was put at an earlier tick
abbrev full : Wheel
full = record { heap = λ p. at_time 256; last_time = 256; slots = hanging }

not_listed : (p : ℕ) → ¬ (0 < count p [])
not_listed p h = omega arith

empty-IsTimely : IsTimely (stage 1 200) empty
empty-IsTimely = record {
  due = λ l i p h. absurd (not_listed p h);
  soon = λ l i p h. absurd (not_listed p h);
}

hanging-Due : (l : Level) (i p : ℕ) → 0 < count p (hanging l i) → Due (stage 1 256 l) 256 l i 256
hanging-Due tv1 i p h = absurd (not_listed p h)
hanging-Due tv2 i p h = elim (Bool-cases (i == 1)) [
  | inl e ↦ record {
    block = 1;
    starts = omega arith;
    in_turn = omega arith;
    slot = sym (==→eq i 1 e);
    reached = omega arith;
  }
  | inr n ↦ absurd (not_listed p (rw n at h))
]
hanging-Due tv3 i p h = absurd (not_listed p h)
hanging-Due tv4 i p h = absurd (not_listed p h)
hanging-Due tv5 i p h = absurd (not_listed p h)

full-IsTimely : IsTimely (stage 1 256) full
full-IsTimely = record { due = hanging-Due; soon = λ l i p h. omega arith }

slot_of-Due_example : Due 201 200 (slot_of 20000 200).0 (slot_of 20000 200).1 20000
slot_of-Due_example =
    slot_of-Due 20000 200 (record { from_last = omega arith; below = omega arith })

cascades-IsTimely_example : IsTimely (stage 5 256) (cascades full)
cascades-IsTimely_example = cascades-IsTimely full full-IsTimely

slot_of_tick-exact_example :
    count 7 ((cascades full).slots tv1 (tvr_mask 256))
    ≡ (if expiry full 7 == 256 then occurs 7 full.slots else 0)
slot_of_tick-exact_example = slot_of_tick-exact full 7 full-IsTimely

occurs-cascades_example : occurs 7 (cascades full).slots ≡ occurs 7 full.slots
occurs-cascades_example = occurs-cascades 7 full

-- At 256 the cascade brings element 7 down to the slot of the tick, where it hangs once.
full-cascades : (cascades full).slots tv1 0 ≡ 7 ∷ []
unfolding cascades cascade_from cascade detach add_timer_elements add_timer_element slot_of
full-cascades = refl
