-- ===== src/World/Tests.antt =====
-- Runs of the module on concrete inputs, and the theorems applied to them.
use dmtimer.Base.{
  ◌+◌, ◌-◌, ◌≢◌, ℕ, ◌/◌, ◌^◌, add64, mul64, sub32, ◌≤◌, ◌≡◌, refl, Bool, true, Option, none, some,
  List, [], ◌∷◌, arith, Outcome, done, stopped, Returns, Returns-done,
}
use dmtimer.Sink.{kill, reset}
use dmtimer.RapidPool.{
  DynamicRapidPool, array_of, release_obj, release_in, release_slot, make_dynamic_pool, make_pool,
  fetch_obj, fetch_slot, is_empty, located, put_default,
}
use dmtimer.Wheel.{
  add_timer_elements, cascades, cascade, cascade_from, detach, tv1, add_timer_element, slot_of,
}
use dmtimer.World.{
  World, new_element, remove_timer_element, release_element, set_timer_info, del_timer_info,
  get_boot_time, fetch_element, install, add_element,
}
use dmtimer.World.Map.{TimerElementMap, find, insert}
use dmtimer.World.Node.{
  get_timer_remain, Timer, CronTimer, set_timer, set_timer_cron, kill_timer, prepare, schedule,
}
use dmtimer.World.Run.{
  Env, Op, sets, kills, sets_speed, run, rounds, round, fire_all, fire, call_timer, rearm,
  next_time, next_by_interval, apply_all, apply, second,
}
use dmtimer.World.Ready.Fire.{IsSound}
use dmtimer.Cron.Sample.{cal, cal-IsRegular, date_of}
use dmtimer.World.Delay.{daily_text}
use dmtimer.World.CronTimers.{daily_text-IsSound}
use dmtimer.World.Life.{un_init, init}
use mathlib.Core.List.{cons≢nil}
use dmtimer.World.Timers.{
  Registered, Killed, set_timer-Registered, set_timer_cron-Registered, kill_timer-Killed,
  fire-kill_timer, get_timer_remain-set_timer,
}
use dmtimer.World.Release.{IsEmptied, un_init-IsEmptied}
use dmtimer.World.Ready.{Frame, IsReady}
use dmtimer.World.Ready.Start.{init-IsReady}
use dmtimer.World.Ready.Changes.{IsCalm}
use dmtimer.World.Ready.Requests.{set_timer-IsReady, apply_all-IsReady}
use dmtimer.World.Ready.Rounds.{Caught, run-Caught}

-- a module made when the clock shows 100, and a timer of node 7 that expires 3 ms later and then every 5
abbrev pub start : World
start = init (λ p. new_element) 0 100 100 100

abbrev pub timer : Timer
timer = record {
  node = 7;
  id_event = 1;
  elapse = 5;
  first = 3;
  any = none;
  exact = true;
  fun_timer = none;
}

abbrev frame : Frame
frame = record { limit = 2 ^ 40; valid = daily_text; last = 0; cur = 0 }

start-IsReady : IsReady frame 0 [] start
unfolding init get_boot_time
start-IsReady =
    init-IsReady (λ p. new_element) 0 100 100 100 (2 ^ 40) daily_text (omega arith) (omega arith)

pub IsCalm-start : IsCalm (2 ^ 40) 100 start
unfolding init get_boot_time
IsCalm-start = record { onward = omega arith; within = omega arith }

abbrev after : Outcome (Bool × World) → World
after (done (b, w)) = w
after (stopped r) = start

abbrev pub with_timer : World
with_timer = after (set_timer true timer 100 start)

with_timer-slot : with_timer.wheel.slots tv1 3 ≡ 0 ∷ []
unfolding init get_boot_time set_timer fetch_element fetch_obj make_dynamic_pool is_empty make_pool
    fetch_slot located schedule prepare add_element add_timer_element slot_of install find insert
    put_default
with_timer-slot = refl

with_timer-IsReady : IsReady frame 0 [] with_timer
unfolding init get_boot_time set_timer fetch_element fetch_obj make_dynamic_pool is_empty make_pool
    fetch_slot located schedule prepare add_element add_timer_element slot_of install find insert
    put_default
with_timer-IsReady = Returns-done (
    set_timer-IsReady timer 100 start (omega arith) start-IsReady IsCalm-start (omega arith)
      (omega arith) (λ e. omega arith))

un_init-IsEmptied_example : Returns (IsEmptied with_timer) (un_init true with_timer)
un_init-IsEmptied_example = un_init-IsEmptied with_timer-IsReady

-- Each call sets timer 2 of node 7 anew, 4 ms ahead.
abbrev pub env : Env
env = record {
  ndebug = true;
  on_timer = λ c w. sets (record timer { id_event = 2; elapse = 4; first = 4 }) w.tick_count ∷ [];
  type_name = λ n. 0;
  time = λ w. 200;
  calendar = cal;
  cron_depth = 4;
}

still :
    (tick speed total : ℕ)
    → total ≤ 2 ^ 40
    → add64 total (mul64 (sub32 tick tick) speed / 10000) ≡ total
still tick speed total h =
    let none_passed : sub32 tick tick ≡ 0 = omega arith in rw none_passed (omega arith)

pub env-IsSound : IsSound (2 ^ 40) daily_text env
unfolding get_boot_time
env-IsSound =
    daily_text-IsSound env 0 (2 ^ 40) 0 (2 ^ 40) cal-IsRegular refl refl
      (λ c w h. (
        (
          record {
            onward = rw (still w.tick_count w.speed w.total_tick_count h) (omega arith);
            within = rw (still w.tick_count w.speed w.total_tick_count h) h;
          },
          omega arith,
          omega arith,
          λ e. omega arith,
        ),
        λ w' e. tt,
      ))
      (λ w. (omega arith, omega arith, (date_of 200, refl)))

pub IsCalm-later : IsCalm (2 ^ 40) 112 with_timer
unfolding init get_boot_time set_timer fetch_element fetch_obj make_dynamic_pool is_empty make_pool
    fetch_slot located schedule prepare add_element add_timer_element slot_of install find insert
    put_default
IsCalm-later = record { onward = omega arith; within = omega arith }

caught_up : (get_boot_time 112 with_timer).0 ≡ 12
unfolding init get_boot_time set_timer fetch_element fetch_obj make_dynamic_pool is_empty make_pool
    fetch_slot located schedule prepare add_element add_timer_element slot_of install find insert
    put_default
caught_up = refl

run-Caught_example :
    Returns
      (λ (r : World × ℕ). Caught (record frame { last = 12; cur = 12 }) r.0)
      (run env 20 112 with_timer)
unfolding init get_boot_time set_timer fetch_element fetch_obj make_dynamic_pool is_empty make_pool
    fetch_slot located schedule prepare add_element add_timer_element slot_of install find insert
    put_default
run-Caught_example =
    run-Caught env 20 112 frame with_timer env-IsSound (omega arith) with_timer-IsReady IsCalm-later
      (omega arith)

abbrev ran : Outcome (World × ℕ) → Option (ℕ × ℕ)
ran (done (w, events)) = some (w.wheel.last_time, events)
ran (stopped r) = none

-- Timer 1 is called at the ticks 3 and 8. Timer 2, set at 12 in these calls, is still to come.
run-events : ran (run env 20 112 with_timer) ≡ some (12, 2)
unfolding init get_boot_time set_timer fetch_element fetch_obj make_dynamic_pool is_empty make_pool
    fetch_slot located schedule prepare add_element add_timer_element slot_of install find insert
    put_default run rounds round fire_all fire call_timer rearm next_time next_by_interval
    remove_timer_element release_element release_obj release_in release_slot array_of set_timer_info
    del_timer_info apply_all apply cascades cascade cascade_from detach kill second reset
    add_timer_elements
run-events = refl

abbrev cron_frame : Frame
cron_frame = record { limit = 2 ^ 40; valid = λ c. true; last = 0; cur = 0 }

abbrev cron_timer : CronTimer
cron_timer = record { node = 7; id_event = 1; cron = 42 ∷ []; fun_timer = some 5 }

abbrev requests : List Op
requests = sets timer 100 ∷ kills 7 1 ∷ sets_speed 5000 ∷ []

apply_all-IsReady_example : Returns (IsReady frame 0 []) (apply_all env requests start)
apply_all-IsReady_example =
    apply_all-IsReady env refl requests start (omega arith)
      (
        (IsCalm-start, omega arith, omega arith, λ e. omega arith),
        λ w e. (tt, λ w' e'. (tt, λ w2 e2. tt)),
      )
      start-IsReady

abbrev two_timers : TimerElementMap
two_timers = (1, 10) ∷ (4, 11) ∷ []

abbrev pool_after : Outcome (Option ℕ × DynamicRapidPool) → DynamicRapidPool
pool_after (done (o, d)) = d
pool_after (stopped r) = start.pool

abbrev one_fetched : DynamicRapidPool
one_fetched = pool_after (fetch_obj true 50000 1000 start.pool)

start-fetch_obj : fetch_obj true 50000 1000 start.pool ≡ done (some 0, one_fetched)
unfolding init get_boot_time fetch_obj make_dynamic_pool is_empty make_pool fetch_slot located
    put_default
start-fetch_obj = refl

none_set : find 1 (start.nodes 7) ≢ some 0
unfolding init get_boot_time find
none_set e = cc

set_timer-Registered_example : Registered 7 1 3 100 0 start (set_timer true timer 100 start)
set_timer-Registered_example =
    set_timer-Registered true 100 0 start one_fetched timer start-fetch_obj none_set

set_timer_cron-Registered_example :
    Registered 7 1 60000 100 0 start (set_timer_cron true cron_timer (done 60) 100 start)
set_timer_cron-Registered_example =
    set_timer_cron-Registered true 100 0 start one_fetched cron_timer 60 cons≢nil start-fetch_obj
      none_set

kill_timer-Killed_example : Killed 7 1 with_timer (kill_timer 7 1 with_timer)
unfolding init get_boot_time set_timer fetch_element fetch_obj make_dynamic_pool is_empty make_pool
    fetch_slot located schedule prepare add_element add_timer_element slot_of install find insert
    put_default
kill_timer-Killed_example = kill_timer-Killed 7 1 with_timer tt

fire-kill_timer_example :
    fire env 0 (kill_timer 7 1 with_timer) 5
    ≡ fire (record env { on_timer = λ c w. [] }) 0 (kill_timer 7 1 with_timer) 5
unfolding init get_boot_time set_timer fetch_element fetch_obj make_dynamic_pool is_empty make_pool
    fetch_slot located schedule prepare add_element add_timer_element slot_of install find insert
    put_default
fire-kill_timer_example = fire-kill_timer env (λ c w. []) 7 1 0 with_timer 5 refl

get_timer_remain-set_timer_example : get_timer_remain 7 1 with_timer ≡ 0 + 3 - 0
unfolding init get_boot_time set_timer fetch_element fetch_obj make_dynamic_pool is_empty make_pool
    fetch_slot located schedule prepare add_element add_timer_element slot_of install find insert
    put_default
get_timer_remain-set_timer_example =
    get_timer_remain-set_timer true 100 0 start with_timer one_fetched timer start-fetch_obj
      none_set (omega arith) (omega arith) refl
