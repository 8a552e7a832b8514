-- ===== src/World/Ready/Rounds.antt =====
-- `CDMTimerModule::Run` is on time: it returns, and what is left in the wheel expires no earlier than
-- the time that it has caught up with.
use mathlib.Core.Path.{subst}
use native.Mathlib.Nat.{le_trans}
use dmtimer.Base.{
  ℕ, zero, suc, ◌+◌, ◌^◌, ◌≤◌, ◌<◌, ◌≡◌, refl, sym, ◌∙◌, inl, inr, [], ◌==◌, arith, add64, count,
  Bool-cases, Returns, returns, Returns-bind, Returns-mono,
}
use dmtimer.Wheel.{Level}
use dmtimer.Wheel.Due.{Due-le}
use dmtimer.Wheel.Timely.{expiry}
use dmtimer.World.{World, get_boot_time}
use dmtimer.World.Run.{Env, round, rounds, run}
use dmtimer.World.Ready.{Frame, IsReady}
use dmtimer.World.Ready.Changes.{IsCalm, get_boot_time-IsReady}
use dmtimer.World.Ready.Fire.{IsSound, fire_all-IsReady}
use dmtimer.World.Ready.Tick.{take-IsReady}

-- The tick is done: `++m_qwLastTime`.
abbrev pub next_frame : Frame → Frame
next_frame frame = record frame { last = frame.last + 1 }

advance-IsReady :
    {frame : Frame} {w : World}
    → IsReady frame (frame.last + 1) [] w
    → frame.limit < 2 ^ 62
    → IsReady
        (next_frame frame)
        (frame.last + 1)
        []
        (record w { wheel = record (w.wheel) { last_time = add64 w.wheel.last_time 1 } })
advance-IsReady {frame} {w} ready small = record {
  pools = ready.pools;
  due = record { due = ready.due.due; soon = ready.due.soon };
  once = ready.once;
  live = ready.live;
  sane = ready.sane;
  tick = rw next_tick (omega arith);
  near = rw next_tick (omega arith);
  clock = ready.clock;
  passed = ready.passed;
  bounded = ready.bounded;
  at_last = next_tick;
  at_cur = ready.at_cur;
  held_at = λ q h. absurd (none q h);
}
  where
    next_tick : add64 w.wheel.last_time 1 ≡ frame.last + 1
    next_tick = omega (arith, ready.at_last, ready.clock, ready.bounded)

    none : (q : ℕ) → ¬ (0 < count q [])
    none q c = omega arith

module _ (env : Env) where
  -- One round of the loop of `Run`, behind the current time: it ends, and the tick is done.
  pub round-IsReady :
      {frame : Frame} (w : World) (events : ℕ)
      → IsSound frame.limit frame.valid env
      → frame.limit < 2 ^ 62
      → frame.last < frame.cur
      → IsReady frame frame.last [] w
      → Returns
          (λ (r : World × ℕ). IsReady (next_frame frame) (frame.last + 1) [] r.0)
          (round env w events)
  unfolding round
  round-IsReady {frame} w events sound small behind ready =
      Returns-bind
        (fire_all-IsReady env sound small refl (omega arith) _ _ events (take-IsReady ready behind))
        λ r ready1. returns (advance-IsReady ready1 small)

  -- The loop of `Run`, with fuel for more rounds than there are ticks to catch up with.
  rounds-IsReady :
      (fuel : ℕ) {frame : Frame} (w : World) (events : ℕ)
      → IsSound frame.limit frame.valid env
      → frame.limit < 2 ^ 62
      → frame.last ≤ frame.cur
      → frame.cur < frame.last + fuel
      → IsReady frame frame.last [] w
      → Returns
          (λ (r : World × ℕ). IsReady (record frame { last = frame.cur }) frame.cur [] r.0)
          (rounds env fuel w events)
  unfolding rounds
  rounds-IsReady zero w events sound small behind enough ready = absurd (omega arith)
  rounds-IsReady (suc fuel) {frame} w events sound small behind enough ready =
      elim (Bool-cases (w.cur_time == w.wheel.last_time)) [
        | inl e ↦
            let caught : frame.last ≡ frame.cur = ground (arith, ready.at_last, ready.at_cur) in
            rw (e, rounds)
              (returns (subst (λ n. IsReady (record frame { last = n }) n [] w) caught ready))
        | inr n ↦
            let later : frame.last < frame.cur = ground (arith, ready.at_last, ready.at_cur) in
            rw (n, rounds)
              (Returns-bind (round-IsReady w events sound small later ready) λ r ready1.
                rounds-IsReady fuel r.0 r.1 sound small (omega arith) (omega arith) ready1)
      ]

-- What `Run` leaves: it has caught up with the time that it read, and no entry of the wheel is overdue.
pub record Caught (frame : Frame) (w : World) : Type 0 where
  pub caught_up : w.wheel.last_time ≡ w.cur_time
  pub none_overdue :
      (l : Level) (i p : ℕ) → 0 < count p (w.wheel.slots l i) → w.cur_time ≤ expiry w.wheel p
  pub ready : IsReady frame frame.cur [] w

Caught-of :
    (frame : Frame) {w : World}
    → IsReady (record frame { last = frame.cur }) frame.cur [] w
    → Caught (record frame { last = frame.cur }) w
Caught-of frame {w} ready = record {
  caught_up = ready.at_last ∙ sym ready.at_cur;
  none_overdue = λ l i p h.
      rw ready.at_cur (Due-le l frame.cur frame.cur i _ (omega arith) (ready.due.due l i p h));
  ready = ready;
}

-- the state whose `m_qwCurTime` is what `Run` reads
pub start-IsReady :
    {frame : Frame} {t now : ℕ} {w : World}
    → IsReady frame t [] w
    → IsCalm frame.limit now w
    → IsReady
        (record frame { cur = (get_boot_time now w).0 })
        t
        []
        (record ((get_boot_time now w).1) { cur_time = (get_boot_time now w).0 })
unfolding get_boot_time
start-IsReady ready calm =
    let r = get_boot_time-IsReady ready _ calm in
    record {
      pools = r.pools;
      due = r.due;
      once = r.once;
      live = r.live;
      sane = r.sane;
      tick = r.tick;
      near = r.near;
      clock = r.clock;
      passed = omega arith;
      bounded = r.bounded;
      at_last = r.at_last;
      at_cur = refl;
      held_at = r.held_at;
    }

-- From a ready state, `Run` with more fuel than there are ticks to catch up with returns, whatever
-- the timers' code does within `IsSound`: assertions compiled out, calls of SetTimer,
-- SetTimerLambda, SetTimerCron, KillTimer and SetSpeed with delays and intervals below 2 ^ 62 ms,
-- exact timers with a positive interval, cron expressions for which `cron_delay` at the clock of
-- the call gives less than 2 ^ 62 ms, and no copies. The clock neither goes back nor passes a limit
-- below 2 ^ 62 ms. Afterwards `m_qwLastTime` is `m_qwCurTime`, no entry of the wheel expires before
-- it, and the state is ready again.
pub run-Caught :
    (env : Env) (fuel now : ℕ) (frame : Frame) (w : World)
    → IsSound frame.limit frame.valid env
    → frame.limit < 2 ^ 62
    → IsReady frame frame.last [] w
    → IsCalm frame.limit now w
    → (get_boot_time now w).0 < frame.last + fuel
    → Returns
        (λ (r : World × ℕ).
          Caught
            (record frame { last = (get_boot_time now w).0; cur = (get_boot_time now w).0 })
            r.0)
        (run env fuel now w)
unfolding run
run-Caught env fuel now frame w sound small ready calm enough =
    Returns-mono
      (rounds-IsReady env fuel _ 0 sound small (le_trans ready.clock calm.onward) enough
        (start-IsReady ready calm))
      λ r ready1. Caught-of (record frame { cur = (get_boot_time now w).0 }) ready1
