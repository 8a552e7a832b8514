-- ===== src/World/Ready/Requests.antt =====
-- The invariant under the node's methods, and under the calls that a timer's code makes.
use mathlib.Core.Bool.{false≢true}
use dmtimer.Base.{
  ℕ, ◌+◌, ◌*◌, ◌^◌, ◌<◌, ◌≡◌, refl, Bool, true, false, Option, none, some, List, [], ◌∷◌, add64,
  mul64, arith, Option-cases, List-cases, ==_self, inl, inr, done, assert, Returns, returns,
  Returns-bind, Returns-value,
}
use dmtimer.Sink.{Element}
use dmtimer.RapidPool.{is_live}
use dmtimer.World.{World, element, set_element, max_pool_s, get_boot_time, set_speed}
use dmtimer.World.Map.{TimerElementMap, find}
use dmtimer.World.Node.{
  Timer, CronTimer, prepare, prepare_cron, schedule, set_timer, set_timer_cron, kill_element,
  kill_timer, kill_elements, kill_timers,
}
use dmtimer.World.Delay.{cron_delay}
use dmtimer.World.Run.{
  Env, Op, sets, sets_cron, kills, resets, copies, assigns, sets_speed, apply, apply_all,
}
use dmtimer.World.Ready.{Frame, IsReady, IsSane, places, set_element-IsReady, add_element-IsReady}
use dmtimer.World.Ready.Changes.{
  IsCalm, IsCalm-same, carry-IsReady, get_boot_time-IsReady, kill_element-IsReady, Granted,
  fetch_element-IsReady, install-IsReady,
}

module _ {frame : Frame} {t : ℕ} {held : List ℕ} where
  schedule-IsReady :
      (p node id delay now : ℕ) (w : World)
      → frame.limit < 2 ^ 62
      → IsReady frame t held w
      → places p held w ≡ 0
      → is_live max_pool_s w.pool p ≡ true
      → IsSane frame.valid (element w p)
      → IsCalm frame.limit now w
      → delay < 2 ^ 62
      → IsReady frame t held (schedule p node id delay now w)
  unfolding schedule get_boot_time
  schedule-IsReady p node id delay now w small ready free live sane calm short =
      let (boot, w1) = get_boot_time now w in
      let e : Element = record (element w p) { next_time = add64 boot delay } in
      let ready1 = get_boot_time-IsReady ready now calm in
      let ready2 = set_element-IsReady ready1 p e free in
      let sum : add64 boot delay ≡ boot + delay = omega (arith, calm.within) in
      install-IsReady node id p (
        add_element-IsReady ready2 p free live
          (rw (==_self p) (record {
            interval = sane.interval;
            advances = sane.advances;
            has_sink = sane.has_sink;
            parses = sane.parses;
          }))
          (rw (==_self p, sum) (omega (arith, ready1.clock)))
          (rw (==_self p, sum) (omega (arith, calm.within))))

  -- `SetTimer` (or `SetTimerLambda`) in a ready state returns and leaves a ready state, if
  -- assertions are compiled out, the clock is calm below a limit of less than 2 ^ 62 ms, the first
  -- time and the interval are below 2 ^ 62 ms, and the interval of an exact timer is positive.
  pub set_timer-IsReady :
      (timer : Timer) (now : ℕ) (w : World)
      → frame.limit < 2 ^ 62
      → IsReady frame t held w
      → IsCalm frame.limit now w
      → timer.first < 2 ^ 62
      → timer.elapse < 2 ^ 62
      → (timer.exact ≡ true → 0 < timer.elapse)
      → Returns (λ (r : Bool × World). IsReady frame t held r.1) (set_timer true timer now w)
  unfolding set_timer prepare
  set_timer-IsReady timer now w small ready calm soon short steps =
      Returns-bind (fetch_element-IsReady ready) granted
    where
      granted :
          (r : Option ℕ × World)
          → Granted ready r
          → Returns
              (λ (r : Bool × World). IsReady frame t held r.1)
              (elim (r.0) [
                | none ↦ assert true false (done (false, r.1))
                | some p ↦
                    let w2 = set_element p (prepare timer (element r.1 p)) r.1 in
                    done (true, schedule p timer.node timer.id_event timer.first now w2)
              ])
      granted (none, w1) ready1 = returns ready1
      granted (some p, w1) (ready1, free, live, new, same) = returns (
          schedule-IsReady p timer.node timer.id_event timer.first now _ small
            (set_element-IsReady ready1 p (prepare timer (element w1 p)) free) free live
            (rw (==_self p) (record {
              interval = short;
              advances = steps;
              has_sink = (timer.node, refl);
              parses = rw new (λ n. absurd (n refl));
            }))
            (IsCalm-same
              (record { tick_count = same.tick_count; total = same.total; speed = same.speed })
              calm)
            soon)

  -- `SetTimerCron` of an expression that parses, whose next time is less than 2 ^ 62 ms ahead,
  -- returns in a ready state and leaves a ready state, if assertions are compiled out and the clock
  -- is calm below a limit of less than 2 ^ 62 ms.
  pub set_timer_cron-IsReady :
      (timer : CronTimer) (seconds now : ℕ) (w : World)
      → frame.limit < 2 ^ 62
      → IsReady frame t held w
      → IsCalm frame.limit now w
      → seconds * 1000 < 2 ^ 62
      → frame.valid timer.cron ≡ true
      → Returns
          (λ (r : Bool × World). IsReady frame t held r.1)
          (set_timer_cron true timer (done seconds) now w)
  unfolding set_timer_cron prepare_cron
  set_timer_cron-IsReady timer seconds now w small ready calm soon parses =
      elim (List-cases timer.cron) [
        | inl e ↦ rw (e, set_timer_cron) (returns ready)
        | inr (b, bs, e) ↦
            rw (e, set_timer_cron) (Returns-bind (fetch_element-IsReady ready) granted)
      ]
    where
      granted :
          (r : Option ℕ × World)
          → Granted ready r
          → Returns
              (λ (r : Bool × World). IsReady frame t held r.1)
              (elim (r.0) [
                | none ↦ assert true false (done (false, r.1))
                | some p ↦
                    let w2 = set_element p (prepare_cron timer (element r.1 p)) r.1 in
                    done (true, schedule p timer.node timer.id_event (mul64 seconds 1000) now w2)
              ])
      granted (none, w1) ready1 = returns ready1
      granted (some p, w1) (ready1, free, live, new, same) = returns (
          schedule-IsReady p timer.node timer.id_event (mul64 seconds 1000) now _ small
            (set_element-IsReady ready1 p (prepare_cron timer (element w1 p)) free) free live
            (rw (==_self p, new)
              (record {
                interval = omega arith;
                advances = λ c. absurd (false≢true c);
                has_sink = (timer.node, refl);
                parses = λ n. parses;
              }))
            (IsCalm-same
              (record { tick_count = same.tick_count; total = same.total; speed = same.speed })
              calm)
            (omega arith))

  -- `KillTimer( uint64_t )` keeps a ready state ready.
  pub kill_timer-IsReady :
      (node id : ℕ) (w : World)
      → IsReady frame t held w
      → IsReady frame t held (kill_timer node id w)
  unfolding kill_timer
  kill_timer-IsReady node id w ready = elim (Option-cases (find id (w.nodes node))) [
    | inl e ↦ rw (e, kill_timer) ready
    | inr (p, e) ↦
        rw (e, kill_timer) (carry-IsReady (kill_element-IsReady ready p) _ refl refl refl refl)
  ]

  kill_elements-IsReady :
      (m : TimerElementMap) (w : World)
      → IsReady frame t held w
      → IsReady frame t held (kill_elements m w)
  unfolding kill_elements
  kill_elements-IsReady [] w ready = ready
  kill_elements-IsReady ((id, p) ∷ m) w ready =
      kill_elements-IsReady m (kill_element p w) (kill_element-IsReady ready p)

  -- `KillTimer()` keeps a ready state ready.
  pub kill_timers-IsReady :
      (node : ℕ) (w : World) → IsReady frame t held w → IsReady frame t held (kill_timers node w)
  unfolding kill_timers
  kill_timers-IsReady node w ready =
      carry-IsReady (kill_elements-IsReady (w.nodes node) w ready) _ refl refl refl refl

-- The calls for which the rounds are on time: intervals and delays below 2 ^ 62 ms, no exact timer with
-- interval 0, expressions that parse, a calm clock, and no copies (a copy of a timer that is being
-- called keeps its time, which is the current tick).
abbrev pub IsSaneOp : Env → ℕ → (List ℕ → Bool) → Op → World → Type 0
IsSaneOp env limit valid (sets timer now) w =
    IsCalm limit now w
    × (timer.first < 2 ^ 62)
    × (timer.elapse < 2 ^ 62)
    × (timer.exact ≡ true → 0 < timer.elapse)
IsSaneOp env limit valid (sets_cron timer cur now) w =
    IsCalm limit now w
    × (valid timer.cron ≡ true)
    × ((seconds : ℕ) × (cron_delay env.calendar env.cron_depth timer.cron cur ≡ done seconds)
        × (seconds * 1000 < 2 ^ 62))
IsSaneOp env limit valid (kills node id) w = Unit {0}
IsSaneOp env limit valid (resets node) w = Unit {0}
IsSaneOp env limit valid (copies node other) w = ⊥
IsSaneOp env limit valid (assigns node other) w = ⊥
IsSaneOp env limit valid (sets_speed speed) w = Unit {0}

-- Such calls one after another.
abbrev pub AreSane : Env → ℕ → (List ℕ → Bool) → List Op → World → Type 0
AreSane env limit valid [] w = Unit {0}
AreSane env limit valid (op ∷ ops) w =
    IsSaneOp env limit valid op w
    × ((w' : World) → apply env op w ≡ done w' → AreSane env limit valid ops w')

module _ {frame : Frame} {t : ℕ} {held : List ℕ} (env : Env) (release : env.ndebug ≡ true) where
  pub apply-IsReady :
      (op : Op) (w : World)
      → frame.limit < 2 ^ 62
      → IsSaneOp env frame.limit frame.valid op w
      → IsReady frame t held w
      → Returns (IsReady frame t held) (apply env op w)
  unfolding apply set_speed
  apply-IsReady (sets timer now) w small (calm, soon, short, steps) ready = rw release (
      Returns-bind (set_timer-IsReady timer now w small ready calm soon short steps)
        λ r ready1. returns ready1)
  apply-IsReady (sets_cron timer cur now) w small (calm, parses, (seconds, e, soon)) ready =
      rw (release, e)
        (Returns-bind (set_timer_cron-IsReady timer seconds now w small ready calm soon parses)
          λ r ready1. returns ready1)
  apply-IsReady (kills node id) w small sane ready = returns (kill_timer-IsReady node id w ready)
  apply-IsReady (resets node) w small sane ready = returns (kill_timers-IsReady node w ready)
  apply-IsReady (copies node other) w small sane ready = absurd sane
  apply-IsReady (assigns node other) w small sane ready = absurd sane
  apply-IsReady (sets_speed speed) w small sane ready =
      returns (carry-IsReady ready _ refl refl refl refl)

  -- A sequence of calls of SetTimer, SetTimerLambda, SetTimerCron, KillTimer and SetSpeed, each
  -- sane in the state that it meets (delays and intervals below 2 ^ 62 ms, exact timers with a
  -- positive interval, expressions that parse, a calm clock), returns from a ready state to a ready
  -- state, if assertions are compiled out and the limit of the clock is below 2 ^ 62 ms.
  pub apply_all-IsReady :
      (ops : List Op) (w : World)
      → frame.limit < 2 ^ 62
      → AreSane env frame.limit frame.valid ops w
      → IsReady frame t held w
      → Returns (IsReady frame t held) (apply_all env ops w)
  unfolding apply_all
  apply_all-IsReady [] w small sane ready = returns ready
  apply_all-IsReady (op ∷ ops) w small (sane, rest) ready =
      let (w1, e, ready1) = Returns-value (apply-IsReady op w small sane ready) in
      rw e (apply_all-IsReady ops w1 small (rest w1 e) ready1)
