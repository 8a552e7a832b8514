-- ===== src/World/Run.antt =====
-- `CDMTimerModule::Run` (src/dmtimermodule.cpp): the rounds, the work list, the calls of the sinks.
use dmtimer.Base.{
  ℕ, zero, suc, ◌+◌, Bool, not, ◌&&◌, Option, none, some, List, [], ◌∷◌, leb, ◌==◌, if◌then◌else◌,
  add64, mul64, Outcome, done, stopped, thrown, out_of_fuel, ◌>>=◌,
}
use dmtimer.Cron.Date.{Calendar}
use dmtimer.World.Delay.{cron_delay}
use dmtimer.Sink.{Element, tvr_mask}
use dmtimer.Wheel.{tv1, cascades, detach}
use dmtimer.World.{
  World, element, set_element, get_boot_time, add_element, release_element, remove_timer_element,
  set_timer_info, del_timer_info, set_speed,
}
use dmtimer.World.Node.{
  Timer, CronTimer, set_timer, set_timer_cron, kill_timer, kill_timers, copy_from, assign,
}

-- The call of `m_funTimer`, or of `OnTimer` of the sink with the payload.
pub data Call : Type 0 where
  by_function : ℕ → ℕ → Call
  by_sink : ℕ → ℕ → Option ℕ → Call

-- What a timer's code may call, with the clock readings that the call meets.
pub data Op : Type 0 where
  sets : Timer → ℕ → Op
  sets_cron : CronTimer → ℕ → ℕ → Op
  kills : ℕ → ℕ → Op
  resets : ℕ → Op
  copies : ℕ → ℕ → Op
  assigns : ℕ → ℕ → Op
  sets_speed : ℕ → Op

-- The world outside: whether assertions are compiled out, the calls that the timers' code makes, the
-- class name of a sink, `time(0)`, and `mktime` and `localtime_r`, with a bound of the depth of the
-- recursion of `find_next`.
pub record Env : Type 0 where
  pub ndebug : Bool
  pub on_timer : Call → World → List Op
  pub type_name : ℕ → ℕ
  pub time : World → ℕ
  pub calendar : Calendar
  pub cron_depth : ℕ

module _ (env : Env) where
  open env use {ndebug, on_timer, type_name, time, calendar, cron_depth}

  unfoldable pub second {ℓ} : {A : Type ℓ} → Outcome (Bool × A) → Outcome A
  second m = do (b, a) ← m; done a

  -- one call that a timer's code makes; what it returns is the code's affair
  unfoldable pub apply : Op → World → Outcome World
  unfolding second
  apply (sets t now) w = second (set_timer ndebug t now w)
  apply (sets_cron t cur now) w =
      second (set_timer_cron ndebug t (cron_delay calendar cron_depth t.cron cur) now w)
  apply (kills node id) w = done (kill_timer node id w)
  apply (resets node) w = done (kill_timers node w)
  apply (copies node other) w = copy_from ndebug node other w
  apply (assigns node other) w = assign ndebug node other w
  apply (sets_speed speed) w = done (set_speed speed w)

  unfoldable pub apply_all : List Op → World → Outcome World
  apply_all [] w = done w
  apply_all (op ∷ ops) w = do w' ← apply op w; apply_all ops w'

  -- `SetTimerInfo( .. typeid(*sink).name() )`, the call, `DelTimerInfo`. `typeid` of a null sink throws.
  unfoldable pub call_timer : ℕ → World → Outcome World
  call_timer p w = elim ((element w p).timer_sink) [
    | none ↦ stopped thrown
    | some sink ↦
        let e = element w p in
        let w1 = set_timer_info e.id (some (type_name sink)) w in
        let call : Call = elim (e.fun_timer) [
          | some f ↦ by_function f e.id
          | none ↦ by_sink sink e.id e.any
        ] in
        (do w2 ← apply_all (on_timer call w1) w1; done (del_timer_info w2))
  ]

  -- the next time of an element that stays, by its interval
  unfoldable pub next_by_interval : ℕ → Element → ℕ
  next_by_interval cur e =
      let next = add64 e.next_time e.cd in
      if not e.exact && leb next cur then add64 cur e.cd else next

  -- the next time of an element that stays
  unfoldable pub next_time : Element → World → Outcome ℕ
  next_time e w = elim (e.cron) [
    | [] ↦ done (next_by_interval w.cur_time e)
    | _ ∷ _ ↦ (do
      next ← cron_delay calendar cron_depth e.cron (time w)
      done (add64 w.cur_time (mul64 next 1000)))
  ]

  -- `m_qwNextTime` anew, and `AddTimerElement`
  unfoldable pub rearm : ℕ → World → Outcome World
  rearm p w = do
    next ← next_time (element w p) w
    done (add_element p (set_element p (record (element w p) { next_time = next }) w))

  -- One round of `while (!list_empty(temp))`, with the number of events so far.
  unfoldable pub fire : ℕ → World → ℕ → Outcome (World × ℕ)
  fire p w events = do
    w1 ← remove_timer_element ndebug p w
    if (element w1 p).erased then (do w2 ← release_element ndebug p w1; done (w2, events)) else (do
      w2 ← call_timer p w1
      if (element w2 p).erased
          then (do w3 ← release_element ndebug p w2; done (w3, events + 1))
          else (do w3 ← rearm p w2; done (w3, events + 1)))

  -- The work list: what is added meanwhile hangs from the vectors, so it only shrinks.
  unfoldable pub fire_all : List ℕ → World → ℕ → Outcome (World × ℕ)
  fire_all [] w events = done (w, events)
  fire_all (p ∷ work) w events = do (w', events') ← fire p w events; fire_all work w' events'

  -- One round of the loop of `Run`.
  unfoldable pub round : World → ℕ → Outcome (World × ℕ)
  round w events = do
    let wheel = cascades w.wheel
    let (work, wheel') = detach tv1 (tvr_mask w.wheel.last_time) wheel
    (w', events') ← fire_all work (record w { wheel = wheel' }) events
    done (
      record w' { wheel = record (w'.wheel) { last_time = add64 w'.wheel.last_time 1 } },
      events',
    )

  -- `while (DM_TIME_NOT_EQ(m_qwCurTime, m_qwLastTime))`
  unfoldable pub rounds : ℕ → World → ℕ → Outcome (World × ℕ)
  rounds zero w events = stopped out_of_fuel
  rounds (suc fuel) w events =
      if w.cur_time == w.wheel.last_time
      then done (w, events)
      else (do (w', events') ← round w events; rounds fuel w' events')

  -- `Run`: the elements after the call, and the number of events. `now` is the clock at its start.
  unfoldable pub run : ℕ → ℕ → World → Outcome (World × ℕ)
  run fuel now w =
      let (boot, w1) = get_boot_time now w in rounds fuel (record w1 { cur_time = boot }) 0
