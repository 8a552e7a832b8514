-- ===== src/World.antt =====
-- The state that the timer module and its nodes share, and the operations on it:
-- src/dmtimermodule.cpp, src/dmtimernode.cpp and include/dmtimermodule.h.
pub mod Map
pub mod Node
pub mod Run
pub mod Life
pub mod Ready
pub mod Timers
pub mod Release
pub mod Install
pub mod Clock
pub mod Kept
pub mod Owned
pub mod Tight
pub mod OnTime
pub mod Reach
pub mod Delay
pub mod CronTimers
mod ClockTests
mod CronTests
mod ReachTests
mod Tests
use dmtimer.Base.{
  ℕ, ◌+◌, ◌*◌, ◌/◌, ◌%◌, ◌^◌, Bool, true, false, not, ◌&&◌, Option, none, some, List, [], ◌∷◌, leb,
  ltb, ◌==◌, if◌then◌else◌, add64, sub64, mul64, sub32, update, Outcome, done, stopped, aborted,
  thrown, assert, ◌>>=◌,
}
use dmtimer.Sink.{Element, kill, reset}
use dmtimer.RapidPool.{DynamicRapidPool, fetch_obj, release_obj}
use dmtimer.Wheel.{Wheel, add_timer_element}
use dmtimer.World.Map.{TimerElementMap, find, insert, erase}

abbrev pub max_pool_s : ℕ
max_pool_s = 50000

abbrev pub max_pool_i : ℕ
max_pool_i = 1000

abbrev pub speed_default : ℕ
speed_default = 10000

-- `CDMTimerModule` (the wheel holds the elements, the five vectors and `m_qwLastTime`), and the map
-- `m_oTimerElementMap` of each `CDMTimerNode`, by the node's address.
pub record World : Type 0 where
  pub wheel : Wheel
  pub pool : DynamicRapidPool
  pub cur_time : ℕ
  pub tick_count : ℕ
  pub total_tick_count : ℕ
  pub id_event : ℕ
  pub timer_obj_name : Option ℕ
  pub speed : ℕ
  pub nodes : ℕ → TimerElementMap

abbrev pub element : World → ℕ → Element
element w p = w.wheel.heap p

abbrev pub set_element : ℕ → Element → World → World
set_element p e w = record w { wheel = record (w.wheel) { heap = update w.wheel.heap p e } }

-- `GetBootTime`, when `GetTickCount32` returns `now`
unfoldable pub get_boot_time : ℕ → World → ℕ × World
get_boot_time now w =
    let real_passed_time = sub32 now w.tick_count in
    let passed_time = mul64 real_passed_time w.speed / speed_default in
    let total = add64 w.total_tick_count passed_time in
    (total, record w { tick_count = now; total_tick_count = total })

-- `GetCurTime`
unfoldable pub get_cur_time : World → ℕ
get_cur_time w = w.cur_time

-- `SetSpeed`; the argument is a `uint32_t`
unfoldable pub set_speed : ℕ → World → World
set_speed speed w = record w { speed = speed % 2 ^ 32 }

-- `SetTimerInfo` and `DelTimerInfo`
unfoldable pub set_timer_info : ℕ → Option ℕ → World → World
set_timer_info id_event name w = record w { id_event = id_event; timer_obj_name = name }

unfoldable pub del_timer_info : World → World
del_timer_info w = record w { id_event = 0; timer_obj_name = none }

-- `new ( p->szData ) T()`: what the constructor of `CDMTimerElement` makes.
abbrev pub new_element : Element
new_element = record {
  linked = false;
  next_time = 0;
  cd = 0;
  id = 0;
  timer_sink = none;
  fun_timer = none;
  any = none;
  cron = [];
  erased = false;
  exact = false;
}

-- `AddTimerElement` on the whole state
unfoldable pub add_element : ℕ → World → World
add_element p w = record w { wheel = add_timer_element p w.wheel }

module _ (ndebug : Bool) where
  -- `FetchElement`
  unfoldable pub fetch_element : World → Outcome (Option ℕ × World)
  fetch_element w = do
    (o, pool) ← fetch_obj ndebug max_pool_s max_pool_i w.pool
    elim o [
      | none ↦ done (none, record w { pool = pool })
      | some p ↦ done (some p, set_element p new_element (record w { pool = pool }))
    ]

  -- `ReleaseElement`. The destructor resets the element, which nothing reads before the slot is
  -- handed out and constructed again.
  unfoldable pub release_element : ℕ → World → Outcome World
  release_element p w = do
    pool ← release_obj ndebug max_pool_s max_pool_i p w.pool
    done (set_element p (reset (element w p)) (record w { pool = pool }))

  -- `RemoveTimerElement` of the entry at the head of a detached list. The list is a value that the
  -- caller goes on with.
  unfoldable pub remove_timer_element : ℕ → World → Outcome World
  remove_timer_element p w =
      if (element w p).linked
      then done (set_element p (record (element w p) { linked = false }) w)
      else assert ndebug false (done w)

-- The end of `SetTimer`, `SetTimerLambda`, `SetTimerCron` and `CopyFrom`: the node's map takes the
-- element, and the element that it held under this id is killed.
unfoldable pub install : ℕ → ℕ → ℕ → World → World
install node id p w =
    let w' : World = elim (find id (w.nodes node)) [
      | some old ↦ set_element old (kill (element w old)) w
      | none ↦ w
    ] in
    record w' { nodes = update w'.nodes node (insert id p (w'.nodes node)) }
