-- ===== src/Wheel.antt =====
-- The timing wheel of `CDMTimerModule` (src/dmtimermodule.cpp).
pub mod Due
pub mod Occurs
pub mod Timely
pub mod Cascade
pub mod OnTime
pub mod Kept
mod Tests
use dmtimer.Base.{
  ℕ, ◌+◌, ◌*◌, ◌/◌, ◌^◌, ◌&&◌, true, List, [], ◌∷◌, ◌++◌, ltb, leb, ◌==◌, if◌then◌else◌, add64,
  sub64, update,
}
use dmtimer.Sink.{Element, tvr_size, tvr_bits, tvn_bits, tvr_mask, tvn_mask, dm_index}

-- the five vectors `m_tv1` .. `m_tv5`
pub data Level : Type 0 where
  tv1 tv2 tv3 tv4 tv5 : Level

abbrev pub level_no : Level → ℕ
level_no tv1 = 1
level_no tv2 = 2
level_no tv3 = 3
level_no tv4 = 4
level_no tv5 = 5

abbrev pub Slots : Type 0
Slots = Level → ℕ → List ℕ

abbrev pub set_slot : Slots → Level → ℕ → List ℕ → Slots
set_slot tv l i xs l' i' = if level_no l' == level_no l && (i' == i) then xs else tv l' i'

-- The elements in memory, `m_qwLastTime`, and the lists that hang from the vectors.
pub record Wheel : Type 0 where
  pub heap : ℕ → Element
  pub last_time : ℕ
  pub slots : Slots

-- The slot that `AddTimerElement` chooses for an expiry time.
unfoldable pub slot_of : ℕ → ℕ → Level × ℕ
slot_of expires last =
    let idx = sub64 expires last in
    if ltb idx tvr_size
    then (tv1, tvr_mask expires)
    else if ltb idx (2 ^ (tvr_bits + tvn_bits))
    then (tv2, tvn_mask (expires / 2 ^ tvr_bits))
    else if ltb idx (2 ^ (tvr_bits + 2 * tvn_bits))
    then (tv3, tvn_mask (expires / 2 ^ (tvr_bits + tvn_bits)))
    else if ltb idx (2 ^ (tvr_bits + 3 * tvn_bits))
    then (tv4, tvn_mask (expires / 2 ^ (tvr_bits + 2 * tvn_bits)))
    else if leb (2 ^ 63) idx
    then (tv1, tvr_mask last)
    else (
      tv5,
      tvn_mask (
          (if ltb 0xffff_ffff idx then add64 0xffff_ffff last else expires)
          / 2 ^ (tvr_bits + 3 * tvn_bits)),
    )

-- `AddTimerElement`: the entry goes to the tail of the list of its slot (`list_add_tail`).
unfoldable pub add_timer_element : ℕ → Wheel → Wheel
add_timer_element p w =
    let (l, i) = slot_of (w.heap p).next_time w.last_time in
    record w {
      heap = update w.heap p (record (w.heap p) { linked = true });
      slots = set_slot w.slots l i (w.slots l i ++ p ∷ []);
    }

-- the loop of `__Cascade` over the entries of the list it has detached
unfoldable pub add_timer_elements : List ℕ → Wheel → Wheel
add_timer_elements [] w = w
add_timer_elements (p ∷ ps) w = add_timer_elements ps (add_timer_element p w)

-- `list_replace_init(tv->vec + idx, &tv_list)`: what the slot held, and the wheel with it empty
unfoldable pub detach : Level → ℕ → Wheel → List ℕ × Wheel
detach l i w = (w.slots l i, record w { slots = set_slot w.slots l i [] })

-- `__Cascade`
unfoldable pub cascade : Level → ℕ → Wheel → ℕ × Wheel
cascade l i w = let (tv_list, w') = detach l i w in (i, add_timer_elements tv_list w')

-- The chain `if (!index && !__Cascade(..) && ..)` at the head of a round of `Run`. A cascade whose
-- index is not 0 ends the chain.
unfoldable pub cascade_from : List (Level × ℕ) → Wheel → Wheel
cascade_from [] w = w
cascade_from ((l, n) ∷ rest) w =
    let (i, w') = cascade l (dm_index w.last_time n) w in
    let more = cascade_from rest w' in if i == 0 then more else w'

abbrev pub upper_levels : List (Level × ℕ)
upper_levels = (tv2, 0) ∷ (tv3, 1) ∷ (tv4, 2) ∷ (tv5, 3) ∷ []

unfoldable pub cascades : Wheel → Wheel
cascades w = if tvr_mask w.last_time == 0 then cascade_from upper_levels w else w
