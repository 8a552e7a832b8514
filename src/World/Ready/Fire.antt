-- ===== src/World/Ready/Fire.antt =====
-- The invariant through the work list of a round of `Run`: an element is taken out, its sink is
-- called, and it is released or hung back with a time that is still to come.
use mathlib.Core.List.{cons≢nil}
use dmtimer.Base.{
  ℕ, ◌+◌, ◌*◌, ◌^◌, ◌≤◌, ◌<◌, ◌≡◌, refl, Bool, true, List, [], ◌∷◌, add64, mul64, arith, Bool-cases,
  List-cases, ==_self, inl, inr, done, ◌>>=◌, Returns, returns, Returns-bind,
}
use dmtimer.Sink.{Element}
use dmtimer.RapidPool.{is_live}
use dmtimer.World.{
  World, element, max_pool_s, release_element, remove_timer_element, set_timer_info, del_timer_info,
}
use dmtimer.World.Delay.{cron_delay}
use dmtimer.World.Run.{Env, Call, call_timer, next_by_interval, next_time, rearm, fire, fire_all}
use dmtimer.World.Ready.{
  Frame, IsReady, IsSane, places, set_element-IsReady, alter_element-IsReady, add_element-IsReady,
}
use dmtimer.World.Ready.Changes.{carry-IsReady, release_element-IsReady}
use dmtimer.World.Ready.Requests.{AreSane, apply_all-IsReady}

-- What the timers' code and the cron parser have to be like for the rounds to be on time.
pub record IsSound (limit : ℕ) (valid : List ℕ → Bool) (env : Env) : Type 0 where
  pub release : env.ndebug ≡ true
  pub calls :
      (c : Call) (w : World)
      → w.total_tick_count ≤ limit
      → AreSane env limit valid (env.on_timer c w) w
  pub crons :
      (cron : List ℕ) (w : World)
      → valid cron ≡ true
      → (seconds : ℕ) × (cron_delay env.calendar env.cron_depth cron (env.time w) ≡ done seconds)
        × (seconds * 1000 < 2 ^ 62)

-- an element that `Run` has out of the wheel, and nowhere else
pub record Held (frame : Frame) (held : List ℕ) (p : ℕ) (w : World) : Type 0 where
  pub free : places p held w ≡ 0
  pub live : is_live max_pool_s w.pool p ≡ true
  pub sane : IsSane frame.valid (element w p)
  pub now : (element w p).next_time ≡ frame.last

module _ {frame : Frame} {t : ℕ} {held : List ℕ} {p : ℕ} {w : World}
    (ready : IsReady frame t (p ∷ held) w) where
  one : 0 < places p (p ∷ held) w
  one = ground arith

  pub drop-IsReady : IsReady frame t held w
  drop-IsReady = record {
    pools = ready.pools;
    due = ready.due;
    once = λ q. ground (arith, ready.once q);
    live = λ q h. ready.live q (ground arith);
    sane = λ q h. ready.sane q (ground arith);
    tick = ready.tick;
    near = ready.near;
    clock = ready.clock;
    passed = ready.passed;
    bounded = ready.bounded;
    at_last = ready.at_last;
    at_cur = ready.at_cur;
    held_at = λ q h. ready.held_at q (ground arith);
  }

  pub drop-Held : Held frame held p w
  drop-Held = record {
    free = ground (arith, ready.once p);
    live = ready.live p one;
    sane = ready.sane p one;
    now = ready.held_at p (ground arith);
  }

module _ {frame : Frame} {t : ℕ} {held : List ℕ} (env : Env)
    (sound : IsSound frame.limit frame.valid env) (small : frame.limit < 2 ^ 62) where
  pub remove_timer_element-IsReady :
      (p : ℕ) (w : World)
      → IsReady frame t held w
      → Returns (IsReady frame t held) (remove_timer_element env.ndebug p w)
  unfolding remove_timer_element
  remove_timer_element-IsReady p w ready = elim (Bool-cases ((element w p).linked)) [
    | inl e ↦
        rw (e, remove_timer_element)
          (returns (alter_element-IsReady ready p _ refl refl refl refl refl))
    | inr e ↦ rw (e, sound.release, remove_timer_element) (returns ready)
  ]

  pub call_timer-IsReady :
      (p : ℕ) (w : World)
      → IsSane frame.valid (element w p)
      → IsReady frame t held w
      → Returns (IsReady frame t held) (call_timer env p w)
  unfolding call_timer set_timer_info del_timer_info
  call_timer-IsReady p w sane ready =
      rw (sane.has_sink.1, call_timer)
        (Returns-bind
          (apply_all-IsReady env sound.release _ _ small (sound.calls _ _ ready.bounded)
            (carry-IsReady ready _ refl refl refl refl))
          λ w2 ready2. returns (carry-IsReady ready2 _ refl refl refl refl))

module _ {frame : Frame} {t : ℕ} {held : List ℕ} (env : Env)
    (sound : IsSound frame.limit frame.valid env) (small : frame.limit < 2 ^ 62) where
  -- The new time of an element that expired at the tick `last` is to come, and below 2 ^ 63.
  pub next_time-later :
      (p : ℕ) (w : World)
      → IsReady frame t held w
      → Held frame held p w
      → t ≡ frame.last + 1
      → t ≤ frame.cur
      → Returns (λ n. (t ≤ n) × (n < 2 ^ 63)) (next_time env (element w p) w)
  unfolding next_time next_by_interval
  next_time-later p w ready out now behind = elim (List-cases ((element w p).cron)) [
    | inl e ↦ rw (e, next_time) (returns (by_interval (element w p) out.sane out.now))
    | inr (b, bs, e) ↦
        let (seconds, delay, soon) =
          sound.crons (element w p).cron w (out.sane.parses (rw e cons≢nil)) in
        rw (e, delay, next_time) (returns (by_cron seconds soon))
  ]
    where
      by_interval :
          (e : Element)
          → IsSane frame.valid e
          → e.next_time ≡ frame.last
          → (t ≤ next_by_interval env w.cur_time e) × (next_by_interval env w.cur_time e < 2 ^ 63)
      by_interval e s at_tick = elim (Bool-cases (e.exact)) [
        | inl x ↦
            ground (arith, s.interval, s.advances x, ready.at_cur, ready.bounded, ready.passed)
        | inr x ↦ ground (arith, s.interval, ready.at_cur, ready.bounded, ready.passed)
      ]

      by_cron :
          (seconds : ℕ)
          → seconds * 1000 < 2 ^ 62
          → (t ≤ add64 w.cur_time (mul64 seconds 1000))
            × (add64 w.cur_time (mul64 seconds 1000) < 2 ^ 63)
      by_cron seconds soon = (
        omega (arith, ready.at_cur, ready.bounded, ready.passed),
        omega (arith, ready.at_cur, ready.bounded, ready.passed),
      )

  -- The element goes back into the wheel with a time to come.
  pub rearm-IsReady :
      (p : ℕ) (w : World)
      → IsReady frame t held w
      → Held frame held p w
      → t ≡ frame.last + 1
      → t ≤ frame.cur
      → Returns (IsReady frame t held) (rearm env p w)
  unfolding rearm
  rearm-IsReady p w ready out now behind =
      Returns-bind (next_time-later p w ready out now behind) λ n ok.
        let e : Element = record (element w p) { next_time = n } in
        let ready1 = set_element-IsReady ready p e out.free in
        returns (
          add_element-IsReady ready1 p out.free out.live
            (rw (==_self p) (record {
              interval = out.sane.interval;
              advances = out.sane.advances;
              has_sink = out.sane.has_sink;
              parses = out.sane.parses;
            }))
            (rw (==_self p) ok.0) (rw (==_self p) ok.1))

  -- One element of the work list: afterwards it is released, or hangs in the wheel with a time to come.
  pub fire-IsReady :
      (p : ℕ) (w : World) (events : ℕ)
      → IsReady frame t (p ∷ held) w
      → t ≡ frame.last + 1
      → t ≤ frame.cur
      → Returns (λ (r : World × ℕ). IsReady frame t held r.0) (fire env p w events)
  unfolding fire
  fire-IsReady p w events ready now behind =
      Returns-bind (remove_timer_element-IsReady env sound small p w ready) λ w1 ready1.
        elim (Bool-cases ((element w1 p).erased)) [
          | inl e ↦ rw e (released w1 events ready1)
          | inr e ↦ rw e (
              Returns-bind (call_timer-IsReady env sound small p w1 (drop-Held ready1).sane ready1)
                λ w2 ready2. elim (Bool-cases ((element w2 p).erased)) [
                  | inl e2 ↦ rw e2 (released w2 (events + 1) ready2)
                  | inr e2 ↦ rw e2 (
                      Returns-bind
                        (rearm-IsReady p w2 (drop-IsReady ready2) (drop-Held ready2) now behind)
                        λ w3 ready3. returns ready3)
                ])
        ]
    where
      released :
          (w' : World) (n : ℕ)
          → IsReady frame t (p ∷ held) w'
          → Returns
              (λ (r : World × ℕ). IsReady frame t held r.0)
              (do w3 ← release_element env.ndebug p w'; done (w3, n))
      released w' n ready' =
          let out = drop-Held ready' in
          rw sound.release (
            Returns-bind (release_element-IsReady (drop-IsReady ready') p out.free out.live)
              λ w3 ready3. returns ready3)

pub fire_all-IsReady :
    {frame : Frame} {t : ℕ} (env : Env)
    → IsSound frame.limit frame.valid env
    → frame.limit < 2 ^ 62
    → t ≡ frame.last + 1
    → t ≤ frame.cur
    → (work : List ℕ) (w : World) (events : ℕ) → IsReady frame t work w
    → Returns (λ (r : World × ℕ). IsReady frame t [] r.0) (fire_all env work w events)
unfolding fire_all
fire_all-IsReady env sound small now behind [] w events ready = returns ready
fire_all-IsReady env sound small now behind (p ∷ work) w events ready =
    Returns-bind (fire-IsReady env sound small p w events ready now behind)
      λ r ready1. fire_all-IsReady env sound small now behind work r.0 r.1 ready1
