-- ===== src/World/ReachTests.antt =====
-- A run of the program from `Init`, with the theorems on the states that it reaches applied to it.
use dmtimer.Base.{
  leb, if◌then◌else◌, List, ℕ, ◌+◌, ◌^◌, ◌≤◌, ◌<◌, ◌≡◌, refl, true, false, some, [], ◌∷◌, done,
  arith, Returns,
}
use dmtimer.RapidPool.{
  make_dynamic_pool, make_pool, fetch_obj, fetch_slot, is_empty, located, put_default,
}
use dmtimer.Wheel.{add_timer_element, slot_of}
use dmtimer.World.{
  World, max_pool_s, element, new_element, get_boot_time, fetch_element, install, add_element,
}
use dmtimer.World.Map.{find, insert}
use dmtimer.World.Node.{set_timer, prepare, schedule}
use dmtimer.World.Life.{init, un_init}
use dmtimer.RapidPool.{is_live}
use dmtimer.Wheel.{Level}
use dmtimer.Wheel.Due.{size}
use dmtimer.World.OnTime.{IsDueCall, with_code}
use dmtimer.World.Run.{Call, Op, resets, sets, run, apply_all, apply, second}
use dmtimer.World.Delay.{daily_text}
use dmtimer.World.Reach.{
  IsReached, starts, requests, IsSafe, reached-IsSafe, reached-run, reached-un_init,
  reached-run-with_code,
}
use dmtimer.World.Tests.{start, timer, env, env-IsSound, with_timer, IsCalm-start, IsCalm-later}

start-IsReached : IsReached env (2 ^ 40) daily_text start
unfolding init get_boot_time
start-IsReached = starts (λ p. new_element) 0 100 100 100 (omega arith) (omega arith)

sets_one : apply_all env (sets timer 100 ∷ []) start ≡ done with_timer
unfolding init get_boot_time set_timer fetch_element fetch_obj make_dynamic_pool is_empty make_pool
    fetch_slot located schedule prepare add_element add_timer_element slot_of install find insert
    put_default apply_all apply second
sets_one = refl

with_timer-IsReached : IsReached env (2 ^ 40) daily_text with_timer
with_timer-IsReached =
    requests start-IsReached (sets timer 100 ∷ [])
      ((IsCalm-start, omega arith, omega arith, λ e. omega arith), λ w e. tt) sets_one

reached-IsSafe_example : IsSafe with_timer
reached-IsSafe_example =
    reached-IsSafe env (2 ^ 40) daily_text env-IsSound (omega arith) with_timer with_timer-IsReached

enough : (get_boot_time 112 with_timer).0 < with_timer.wheel.last_time + 20
unfolding init get_boot_time set_timer fetch_element fetch_obj make_dynamic_pool is_empty make_pool
    fetch_slot located schedule prepare add_element add_timer_element slot_of install find insert
    put_default
enough = omega arith

reached-run_example :
    Returns
      (λ (r : World × ℕ).
        IsReached env (2 ^ 40) daily_text r.0
        × (r.0.wheel.last_time ≡ (get_boot_time 112 with_timer).0)
        × ((n i p : ℕ)
            → find i (r.0.nodes n) ≡ some p
            → (get_boot_time 112 with_timer).0 ≤ (element r.0 p).next_time))
      (run env 20 112 with_timer)
reached-run_example =
    reached-run env (2 ^ 40) daily_text env-IsSound (omega arith) 20 112 with_timer
      with_timer-IsReached IsCalm-later enough

reached-un_init_example :
    Returns
      (λ (w' : World).
        ((l : Level) (i : ℕ) → i < size l → w'.wheel.slots l i ≡ [])
        × ((p : ℕ) → is_live max_pool_s w'.pool p ≡ false))
      (un_init true with_timer)
reached-un_init_example =
    reached-un_init env (2 ^ 40) daily_text env-IsSound (omega arith) with_timer
      with_timer-IsReached

-- code that resets node 0 when it is called at a tick that the clock has not passed, and else does the same
abbrev hasty : Call → World → List Op
hasty c w = if leb w.cur_time w.wheel.last_time then resets 0 ∷ [] else env.on_timer c w

hasty-due : (c : Call) (w : World) → IsDueCall c w → hasty c w ≡ env.on_timer c w
hasty-due c w due =
    let past : leb w.cur_time w.wheel.last_time ≡ false = ground (arith, due.passed) in rw past refl

reached-run-with_code_example :
    run (with_code env hasty) 20 112 with_timer ≡ run env 20 112 with_timer
reached-run-with_code_example =
    reached-run-with_code env (2 ^ 40) daily_text env-IsSound (omega arith) hasty 20 112 with_timer
      with_timer-IsReached IsCalm-later hasty-due
