-- ===== src/World/CronTimers.antt =====
-- `SetTimerCron` and `Run` with the cron expressions of include/dmcroncpp.h, for expressions without limits on
-- days and months: nothing is assumed of the parser and the search.
use mathlib.Core.Bool.{false≢true}
use mathlib.Core.List.{cons≢nil}
use dmtimer.Base.{
  ℕ, suc, ◌+◌, ◌-◌, ◌*◌, ◌≤◌, ◌≡◌, ◌≢◌, refl, Bool, true, some, List, [], ◌∷◌, mul64, arith, done,
}
use dmtimer.RapidPool.{DynamicRapidPool, fetch_obj}
use dmtimer.Cron.{CronExpr, cron_standard_traits}
use dmtimer.Cron.Make.{make_cron}
use dmtimer.Cron.Date.{Tm, Calendar}
use dmtimer.Cron.Next.Regular.{IsRegular}
use dmtimer.Cron.Next.Answer.{IsAnswer}
use dmtimer.World.{World, max_pool_s, max_pool_i}
use dmtimer.World.Map.{find}
use dmtimer.World.Node.{CronTimer, set_timer_cron}
use dmtimer.World.Delay.{cron_delay, is_daily, daily_text, cron_delay-IsAnswer}
use dmtimer.World.Run.{Env, Call}
use dmtimer.World.Ready.Requests.{AreSane}
use dmtimer.World.Ready.Fire.{IsSound}
use dmtimer.World.Timers.{Registered, set_timer_cron-Registered}

-- An empty text is no expression.
daily_text-ne-nil : (cron : List ℕ) → daily_text cron ≡ true → cron ≢ []
unfolding daily_text is_daily make_cron
daily_text-ne-nil [] h e = false≢true h
daily_text-ne-nil (c ∷ s) h e = cons≢nil e

module _ (cal : Calendar) {from limit : ℕ} (regular : IsRegular cal from limit) (fuel : ℕ) where
  -- If the text parses to an expression with every day and every month, then `SetTimerCron` with
  -- what the code computes from the text at the time `cur` sets the timer: there is an answer
  -- `time` of `cron_next`, later than `cur` and less than 200000 s after it, at a date whose
  -- second, minute and hour are in the expression, and the node has the fetched element under the
  -- id, hung in the wheel to expire `( time - cur ) * 1000` ms after the boot time, while the
  -- element that had the id is killed. This holds in any zone, if its clocks are not changed from
  -- the start of the day of `cur`, or before, to a limit at least 400000 s after `cur`, and
  -- `mktime` and `localtime_r` go with the days and the clock of the zone (`IsRegular`), `cur` has
  -- a local date, `FetchElement` gives an element that the id does not have, and the recursion may
  -- go four levels deep or more.
  pub set_timer_cron_text-Registered :
      (ndebug : Bool) (now p : ℕ) (w : World) (pool : DynamicRapidPool) (timer : CronTimer)
      (cur : ℕ) (dt : Tm)
      → daily_text timer.cron ≡ true
      → cal.localtime cur ≡ some dt
      → from ≤ cur
      → cur + 400000 ≤ limit
      → fetch_obj ndebug max_pool_s max_pool_i w.pool ≡ done (some p, pool)
      → find timer.id_event (w.nodes timer.node) ≢ some p
      → (time : ℕ) × (cex : CronExpr) × (make_cron cron_standard_traits timer.cron ≡ done cex)
        × IsAnswer cal cex cur time
        × Registered timer.node timer.id_event ((time - cur) * 1000) now p w (
            set_timer_cron ndebug timer
              (cron_delay cal (suc (suc (suc (suc fuel)))) timer.cron cur)
              now
              w)
  set_timer_cron_text-Registered ndebug now p w pool timer cur dt daily local since room e new =
      let (time, cex, parsed, answer, delay) =
        cron_delay-IsAnswer cal from limit fuel timer.cron cur dt regular daily local since room in
      let exact : mul64 (time - cur) 1000 ≡ (time - cur) * 1000 =
        omega (arith, answer.later, answer.soon) in
      (
        time,
        cex,
        parsed,
        answer,
        rw delay (
            rw exact at (
              set_timer_cron-Registered ndebug now p w pool timer (time - cur)
                (daily_text-ne-nil timer.cron daily) e new)),
      )

-- `Run` computes the next time of an expression that is valid for it.
pub daily_text-IsSound :
    (env : Env) (from climit depth limit : ℕ) (regular : IsRegular env.calendar from climit)
    → env.cron_depth ≡ suc (suc (suc (suc depth)))
    → env.ndebug ≡ true
    → ((c : Call) (w : World)
        → w.total_tick_count ≤ limit
        → AreSane env limit daily_text (env.on_timer c w) w)
    → ((w : World)
        → (from ≤ env.time w)
          × (env.time w + 400000 ≤ climit)
          × ((dt : Tm) × (env.calendar.localtime (env.time w) ≡ some dt)))
    → IsSound limit daily_text env
daily_text-IsSound env from climit depth limit regular deep release calls clock = record {
  release = release;
  calls = calls;
  crons = λ cron w h.
      let (since, room, (dt, local)) = clock w in
      let (time, cex, parsed, answer, delay) =
        cron_delay-IsAnswer env.calendar from climit depth cron (env.time w) dt regular h local
          since room in
      (time - env.time w, rw (deep, delay) refl, omega (arith, answer.later, answer.soon));
}
