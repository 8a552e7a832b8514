-- ===== src/World/Tight.antt =====
-- No element is lost: every live object of the pool is in the wheel or in the work list of `Run`.
use mathlib.Core.Bool.{false≢true}
use dmtimer.Base.{
  ℕ, ◌<◌, ◌≡◌, refl, sym, ◌∙◌, Bool, true, false, Option, none, some, List, [], ◌∷◌, ◌==◌, mul64,
  arith, Bool-cases, Option-cases, List-cases, inl, inr, done, assert, Returns, returns,
  Returns-bind,
}
use dmtimer.Sink.{Element}
use dmtimer.RapidPool.{is_live}
use dmtimer.RapidPool.Dynamic.{
  fetch_obj-IsDynamic, release_obj-IsDynamic, make_dynamic_pool-IsDynamic,
}
use dmtimer.Wheel.Occurs.{occurs-add_timer_element}
use dmtimer.World.{
  World, element, set_element, add_element, max_pool_s, max_pool_i, fetch_element, release_element,
  get_boot_time, install,
}
use dmtimer.World.Map.{TimerElementMap, find}
use dmtimer.World.Install.{slots-install, pool-install}
use dmtimer.World.Life.{init}
use dmtimer.World.Node.{
  Timer, CronTimer, prepare, prepare_cron, schedule, set_timer, set_timer_cron, kill_element,
  kill_elements, kill_timer, kill_timers,
}
use dmtimer.World.Ready.{Frame, IsReady, places}
use dmtimer.World.Ready.Fire.{drop-Held}
use dmtimer.World.Kept.{IsKept}
use dmtimer.World.Owned.Kill.{slots-kill_elements}

abbrev pub IsTight : List ℕ → World → Type 0
IsTight held w = (q : ℕ) → is_live max_pool_s w.pool q ≡ true → 0 < places q held w

-- as before, but for the element that is being set up
abbrev AlmostTight : ℕ → List ℕ → World → Type 0
AlmostTight p held w =
    (q : ℕ) → is_live max_pool_s w.pool q ≡ true → (q == p) ≡ false → 0 < places q held w

-- what `FetchElement` leaves
abbrev Fetched : List ℕ → Option ℕ × World → Type 0
Fetched held (none, w) = IsTight held w
Fetched held (some p, w) = AlmostTight p held w

fetch_element-Fetched :
    {frame : Frame} {t : ℕ} {held : List ℕ} (w : World)
    → IsReady frame t held w
    → IsTight held w
    → Returns (Fetched held) (fetch_element true w)
unfolding fetch_element
fetch_element-Fetched w ready tight = elim (fetch_obj-IsDynamic true w.pool ready.pools) [
  | inl (none_left, e) ↦ rw e (returns tight)
  | inr got ↦ rw got.returns (returns (λ q h ne. tight q (rw (got.marked q, ne) at h)))
]

-- The element that is set up goes into the wheel.
install-IsTight :
    (held : List ℕ) (p node id : ℕ) (w : World)
    → AlmostTight p held w
    → IsTight held (install node id p (add_element p w))
unfolding add_element
install-IsTight held p node id w almost q h =
    let live = rw (pool-install node id p (add_element p w)) at h in
    rw (slots-install node id p (add_element p w)) (elim (Bool-cases (q == p)) [
      | inl e ↦ ground (arith, e, occurs-add_timer_element q p w.wheel)
      | inr ne ↦ ground (arith, almost q live ne, occurs-add_timer_element q p w.wheel)
    ])

schedule-IsTight :
    (held : List ℕ) (p node id delay now : ℕ) (w : World)
    → AlmostTight p held w
    → IsTight held (schedule p node id delay now w)
unfolding schedule get_boot_time
schedule-IsTight held p node id delay now w almost = install-IsTight held p node id _ almost

module _ {frame : Frame} {t : ℕ} {held : List ℕ} where
  set_timer-IsTight :
      (timer : Timer) (now : ℕ) (w : World)
      → IsReady frame t held w
      → IsTight held w
      → Returns (λ (r : Bool × World). IsTight held r.1) (set_timer true timer now w)
  unfolding set_timer
  set_timer-IsTight timer now w ready tight =
      Returns-bind (fetch_element-Fetched w ready tight) granted
    where
      granted :
          (r : Option ℕ × World)
          → Fetched held r
          → Returns
              (λ (r : Bool × World). IsTight held r.1)
              (elim (r.0) [
                | none ↦ assert true false (done (false, r.1))
                | some p ↦
                    let w2 = set_element p (prepare timer (element r.1 p)) r.1 in
                    done (true, schedule p timer.node timer.id_event timer.first now w2)
              ])
      granted (none, w1) tight1 = returns tight1
      granted (some p, w1) almost = returns (
          schedule-IsTight held p timer.node timer.id_event timer.first now
            (set_element p (prepare timer (element w1 p)) w1) almost)

  set_timer_cron-IsTight :
      (timer : CronTimer) (seconds now : ℕ) (w : World)
      → IsReady frame t held w
      → IsTight held w
      → Returns
          (λ (r : Bool × World). IsTight held r.1)
          (set_timer_cron true timer (done seconds) now w)
  unfolding set_timer_cron
  set_timer_cron-IsTight timer seconds now w ready tight = elim (List-cases timer.cron) [
    | inl e ↦ rw (e, set_timer_cron) (returns tight)
    | inr (b, bs, e) ↦
        rw (e, set_timer_cron) (Returns-bind (fetch_element-Fetched w ready tight) granted)
  ]
    where
      granted :
          (r : Option ℕ × World)
          → Fetched held r
          → Returns
              (λ (r : Bool × World). IsTight held r.1)
              (elim (r.0) [
                | none ↦ assert true false (done (false, r.1))
                | some p ↦
                    let w2 = set_element p (prepare_cron timer (element r.1 p)) r.1 in
                    done (true, schedule p timer.node timer.id_event (mul64 seconds 1000) now w2)
              ])
      granted (none, w1) tight1 = returns tight1
      granted (some p, w1) almost = returns (
          schedule-IsTight held p timer.node timer.id_event (mul64 seconds 1000) now
            (set_element p (prepare_cron timer (element w1 p)) w1) almost)

kill_timer-IsTight :
    (held : List ℕ) (node id : ℕ) (w : World) → IsTight held w → IsTight held (kill_timer node id w)
unfolding kill_timer kill_element
kill_timer-IsTight held node id w tight = elim (Option-cases (find id (w.nodes node))) [
  | inl e ↦ rw (e, kill_timer) tight
  | inr (p, e) ↦ rw (e, kill_timer) tight
]

pool-kill_elements : (m : TimerElementMap) (w : World) → (kill_elements m w).pool ≡ w.pool
unfolding kill_elements kill_element
pool-kill_elements [] w = refl
pool-kill_elements ((i, p) ∷ m) w = pool-kill_elements m (kill_element p w)

kill_timers-IsTight :
    (held : List ℕ) (node : ℕ) (w : World) → IsTight held w → IsTight held (kill_timers node w)
unfolding kill_timers
kill_timers-IsTight held node w tight q h =
    let before = tight q (rw (pool-kill_elements (w.nodes node) w) at h) in
    rw (slots-kill_elements (w.nodes node) w) before

release_element-IsTight :
    {frame : Frame} {t : ℕ} {held : List ℕ} (p : ℕ) (w : World)
    → IsReady frame t (p ∷ held) w
    → (element w p).erased ≡ true
    → IsTight (p ∷ held) w
    → Returns (IsTight held) (release_element true p w)
unfolding release_element
release_element-IsTight p w ready dead tight =
    let gone = release_obj-IsDynamic true p w.pool ready.pools (drop-Held ready).live in
    rw gone.returns (returns (λ q h. ground (arith, tight q, gone.unmarked q)))

pub IsTight-IsKept : IsKept IsTight
IsTight-IsKept = record {
  same = λ tight nodes pool at tags q h. rw (at q) (tight q (rw pool at h));
  timer_set = set_timer-IsTight;
  cron_set = set_timer_cron-IsTight;
  timer_killed = kill_timer-IsTight;
  timers_killed = kill_timers-IsTight;
  released = release_element-IsTight;
}

-- A new module has no live object.
pub init-IsTight :
    (heap : ℕ → Element) (id_event now now_last now_cur : ℕ)
    → IsTight [] (init heap id_event now now_last now_cur)
unfolding init get_boot_time
init-IsTight heap id_event now now_last now_cur q h =
    let none_live =
      (make_dynamic_pool-IsDynamic max_pool_s max_pool_i (omega arith) (omega arith)
        (omega arith)).1 in
    absurd (false≢true (sym (none_live q) ∙ h))
