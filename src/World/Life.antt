-- ===== src/World/Life.antt =====
-- `CDMTimerModule`'s constructor, `Init`, `__ReleaseElement` and `UnInit` (src/dmtimermodule.cpp).
use dmtimer.Base.{ℕ, zero, suc, ◌-◌, Bool, none, List, [], ◌∷◌, ◌++◌, Outcome, done, ◌>>=◌}
use dmtimer.Sink.{Element, tvn_size, tvr_size}
use dmtimer.RapidPool.{make_dynamic_pool}
use dmtimer.Wheel.{Level, tv1, tv2, tv3, tv4, tv5, detach}
use dmtimer.World.{
  World, max_pool_s, speed_default, get_boot_time, release_element, remove_timer_element,
}

-- The constructor with `Init`. The memory of the elements is what it is (`heap`), no node has a timer,
-- `m_qwIDEvent` is not assigned (`id_event`), and the clock is read three times.
unfoldable pub init : (ℕ → Element) → ℕ → ℕ → ℕ → ℕ → World
init heap id_event now now_last now_cur =
    let w : World = record {
      wheel = record { heap = heap; last_time = 0; slots = λ l i. [] };
      pool = make_dynamic_pool max_pool_s;
      cur_time = 0;
      tick_count = now;
      total_tick_count = 0;
      id_event = id_event;
      timer_obj_name = none;
      speed = speed_default;
      nodes = λ n. [];
    } in
    let (last, w1) = get_boot_time now_last w in
    let (cur, w2) = get_boot_time now_cur w1 in
    record w2 { wheel = record (w2.wheel) { last_time = last }; cur_time = cur }

-- the loop of `__ReleaseElement` over the list that it has detached
unfoldable pub release_elements : Bool → List ℕ → World → Outcome World
release_elements ndebug [] w = done w
release_elements ndebug (p ∷ ps) w = do
  w1 ← remove_timer_element ndebug p w
  w2 ← release_element ndebug p w1
  release_elements ndebug ps w2

-- `__ReleaseElement`
unfoldable pub release_slot_of : Bool → Level × ℕ → World → Outcome World
release_slot_of ndebug (l, i) w =
    let (work, wheel) = detach l i w.wheel in
    release_elements ndebug work (record w { wheel = wheel })

unfoldable pub release_slots : Bool → List (Level × ℕ) → World → Outcome World
release_slots ndebug [] w = done w
release_slots ndebug (s ∷ ss) w = do w1 ← release_slot_of ndebug s w; release_slots ndebug ss w1

-- the slots in the order of the first loop of `UnInit`, `n` rounds before its end
unfoldable pub upper_slots : ℕ → List (Level × ℕ)
upper_slots zero = []
upper_slots (suc n) =
    let j = tvn_size - suc n in (tv5, j) ∷ (tv4, j) ∷ (tv3, j) ∷ (tv2, j) ∷ upper_slots n

-- and of the second
unfoldable pub root_slots : ℕ → List (Level × ℕ)
root_slots zero = []
root_slots (suc n) = (tv1, tvr_size - suc n) ∷ root_slots n

-- `UnInit`
unfoldable pub un_init : Bool → World → Outcome World
un_init ndebug w = release_slots ndebug (upper_slots tvn_size ++ root_slots tvr_size) w
