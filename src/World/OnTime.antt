-- ===== src/World/OnTime.antt =====
-- Which calls of the timers' code `CDMTimerModule::Run` makes: what the code would do at any other call makes no
-- difference to it.
use native.Mathlib.Nat.{le_trans}
use dmtimer.Base.{
  none, some, bind-same, ℕ, zero, suc, ◌+◌, ◌^◌, ◌≤◌, ◌<◌, ◌≡◌, refl, ap, sym, ◌∙◌, inl, inr, false,
  some, List, [], ◌∷◌, ◌==◌, arith, Bool-cases, Option-cases, done, ◌>>=◌, Returns-value,
}
use dmtimer.Wheel.{detach}
use dmtimer.Sink.{Element}
use dmtimer.World.{World, element, get_boot_time, set_timer_info, del_timer_info}
use dmtimer.World.Run.{
  Env, Call, by_function, by_sink, Op, sets, sets_cron, kills, resets, copies, assigns, sets_speed,
  apply, apply_all, second, call_timer, next_time, next_by_interval, rearm, fire, fire_all, round,
  rounds, run,
}
use dmtimer.World.Ready.{Frame, IsReady}
use dmtimer.World.Ready.Changes.{IsCalm}
use dmtimer.World.Ready.Fire.{IsSound, drop-Held, remove_timer_element-IsReady, fire-IsReady}
use dmtimer.World.Ready.Tick.{take-IsReady}
use dmtimer.World.Ready.Rounds.{round-IsReady, start-IsReady}

-- the call that belongs to an element: of its function, or else of `OnTimer` of its sink, with its payload
pub data IsCallOf (e : Element) : Call → Type 0 where
  of_function : {f : ℕ} → e.fun_timer ≡ some f → IsCallOf e (by_function f e.id)
  of_sink :
      {sink : ℕ}
      → e.fun_timer ≡ none
      → e.timer_sink ≡ some sink
      → IsCallOf e (by_sink sink e.id e.any)

-- The call is for an element that expires at the tick that `Run` is at, which the clock has passed, and that
-- is not killed.
pub record IsDueCall (c : Call) (w : World) : Type 0 where
  pub timer : ℕ
  pub expires : (element w timer).next_time ≡ w.wheel.last_time
  pub passed : w.wheel.last_time < w.cur_time
  pub alive : (element w timer).erased ≡ false
  pub named : IsCallOf (element w timer) c

-- the same world outside with other timers' code
abbrev pub with_code : Env → (Call → World → List Op) → Env
with_code env code = record env { on_timer = code }

module _ (env : Env) (code : Call → World → List Op) where
  apply-with_code : (op : Op) (w : World) → apply (with_code env code) op w ≡ apply env op w
  unfolding apply second
  apply-with_code (sets t now) w = refl
  apply-with_code (sets_cron t cur now) w = refl
  apply-with_code (kills node id) w = refl
  apply-with_code (resets node) w = refl
  apply-with_code (copies node other) w = refl
  apply-with_code (assigns node other) w = refl
  apply-with_code (sets_speed speed) w = refl

  apply_all-with_code :
      (ops : List Op) (w : World) → apply_all (with_code env code) ops w ≡ apply_all env ops w
  unfolding apply_all
  apply_all-with_code [] w = refl
  apply_all-with_code (op ∷ ops) w =
      rw (apply-with_code op w) (bind-same (apply env op w) _ _ λ w' e. apply_all-with_code ops w')

  rearm-with_code : (p : ℕ) (w : World) → rearm (with_code env code) p w ≡ rearm env p w
  unfolding rearm next_time next_by_interval
  rearm-with_code p w = refl

  module _ (same : (c : Call) (w : World) → IsDueCall c w → code c w ≡ env.on_timer c w) where
    apply_all-due :
        (c : Call) (w : World)
        → IsDueCall c w
        → apply_all (with_code env code) (code c w) w ≡ apply_all env (env.on_timer c w) w
    apply_all-due c w due = rw (same c w due) (apply_all-with_code (env.on_timer c w) w)

    -- the call of an element that is due
    call_timer-with_code :
        (p : ℕ) (w : World)
        → (element w p).next_time ≡ w.wheel.last_time
        → w.wheel.last_time < w.cur_time
        → (element w p).erased ≡ false
        → call_timer (with_code env code) p w ≡ call_timer env p w
    unfolding call_timer set_timer_info
    call_timer-with_code p w now behind alive = elim (Option-cases (element w p).timer_sink) [
      | inl e ↦ rw (e, call_timer) refl
      | inr (sink, e) ↦
          let due : (c : Call)
              → IsCallOf (element w p) c
              → IsDueCall c (set_timer_info (element w p).id (some (env.type_name sink)) w) =
            λ c named. record {
              timer = p;
              expires = now;
              passed = behind;
              alive = alive;
              named = named;
            } in
          elim (Option-cases (element w p).fun_timer) [
            | inl f ↦
                rw (e, f, call_timer)
                  (ap (λ m. m >>= λ w2. done (del_timer_info w2))
                    (apply_all-due (by_sink sink (element w p).id (element w p).any) _
                      (due _ (of_sink f e))))
            | inr (fun, f) ↦
                rw (e, f, call_timer)
                  (ap (λ m. m >>= λ w2. done (del_timer_info w2))
                    (apply_all-due (by_function fun (element w p).id) _ (due _ (of_function f))))
          ]
    ]

  module _ (same : (c : Call) (w : World) → IsDueCall c w → code c w ≡ env.on_timer c w)
      {frame : Frame} (sound : IsSound frame.limit frame.valid env)
      (small : frame.limit < 2 ^ 62) where
    fire-with_code :
        {t : ℕ} {held : List ℕ} (p : ℕ) (w : World) (events : ℕ)
        → IsReady frame t (p ∷ held) w
        → t ≡ frame.last + 1
        → t ≤ frame.cur
        → fire (with_code env code) p w events ≡ fire env p w events
    unfolding fire rearm next_time next_by_interval
    fire-with_code p w events ready now behind =
        let (w1, e, ready1) =
          Returns-value (remove_timer_element-IsReady env sound small p w ready) in
        rw e (elim (Bool-cases ((element w1 p).erased)) [
          | inl dead ↦ rw dead refl
          | inr alive ↦
              rw
                (
                  alive,
                  call_timer-with_code same p w1 ((drop-Held ready1).now ∙ sym ready1.at_last)
                      (omega (arith, ready1.at_last, ready1.at_cur, now, behind)) alive,
                )
                refl
        ])

    fire_all-with_code :
        (work : List ℕ) (w : World) (events : ℕ)
        → IsReady frame (frame.last + 1) work w
        → frame.last < frame.cur
        → fire_all (with_code env code) work w events ≡ fire_all env work w events
    unfolding fire_all
    fire_all-with_code [] w events ready behind = refl
    fire_all-with_code (p ∷ work) w events ready behind =
        let (r, e, ready1) =
          Returns-value
            (fire-IsReady env sound small p w events ready refl (omega (arith, behind))) in
        rw (fire-with_code p w events ready refl (omega (arith, behind)), e)
          (fire_all-with_code work r.0 r.1 ready1 behind)

    round-with_code :
        (w : World) (events : ℕ)
        → IsReady frame frame.last [] w
        → frame.last < frame.cur
        → round (with_code env code) w events ≡ round env w events
    unfolding round detach
    round-with_code w events ready behind =
        rw (fire_all-with_code _ _ events (take-IsReady ready behind) behind) refl

  module _ (same : (c : Call) (w : World) → IsDueCall c w → code c w ≡ env.on_timer c w) where
    rounds-with_code :
        (fuel : ℕ) {frame : Frame} (w : World) (events : ℕ)
        → IsSound frame.limit frame.valid env
        → frame.limit < 2 ^ 62
        → frame.last ≤ frame.cur
        → IsReady frame frame.last [] w
        → rounds (with_code env code) fuel w events ≡ rounds env fuel w events
    unfolding rounds
    rounds-with_code zero w events sound small behind ready = refl
    rounds-with_code (suc fuel) {frame} w events sound small behind ready =
        elim (Bool-cases (w.cur_time == w.wheel.last_time)) [
          | inl e ↦ rw (e, rounds) refl
          | inr n ↦
              let later : frame.last < frame.cur = ground (arith, ready.at_last, ready.at_cur) in
              let (r, e, ready1) =
                Returns-value (round-IsReady env w events sound small later ready) in
              rw (n, round-with_code same sound small w events ready later, e, rounds)
                (rounds-with_code fuel r.0 r.1 sound small (omega (arith, later)) ready1)
        ]

    -- what the timers' code would do at a call that is not due makes no difference to `Run`
    pub run-with_code :
        (fuel now : ℕ) {frame : Frame} (w : World)
        → IsSound frame.limit frame.valid env
        → frame.limit < 2 ^ 62
        → IsReady frame frame.last [] w
        → IsCalm frame.limit now w
        → run (with_code env code) fuel now w ≡ run env fuel now w
    unfolding run get_boot_time
    run-with_code fuel now w sound small ready calm =
        rounds-with_code fuel _ 0 sound small (le_trans ready.clock calm.onward)
          (start-IsReady ready calm)
