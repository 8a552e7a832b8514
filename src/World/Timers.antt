-- ===== src/World/Timers.antt =====
-- What the methods of src/dmtimernode.cpp do to a node's timers.
use dmtimer.Base.{
  ◌-◌, ◌≤◌, ◌<◌, ◌^◌, ℕ, ◌+◌, ◌≡◌, ◌≢◌, refl, ap, sym, ◌∙◌, inl, inr, Bool, true, false, none, some,
  List, [], ◌==◌, arith, hit, if◌then◌else◌, add64, mul64, Bool-cases, Option-cases, List-cases,
  ==→eq, ==_self, Outcome, done,
}
use dmtimer.Sink.{Element, kill}
use dmtimer.RapidPool.{fetch_obj, DynamicRapidPool}
use dmtimer.Wheel.Occurs.{occurs, occurs-add_timer_element}
use dmtimer.Wheel.Kept.{bare, add_timer_element-SameBut}
use dmtimer.World.{
  World, remove_timer_element, element, set_element, max_pool_s, max_pool_i, get_boot_time,
  add_element, fetch_element, install,
}
use dmtimer.World.Map.{find, IsSorted, find-insert, find-erase}
use dmtimer.World.Run.{Env, Call, Op, fire}
use dmtimer.World.Install.{
  nodes-install, cur_time-install, slots-install, element-install_other, element-install_old,
}
use dmtimer.World.Node.{
  Timer, CronTimer, prepare, prepare_cron, schedule, set_timer, set_timer_cron, kill_element,
  kill_timer, get_timer_remain,
}

-- A request that returns true: element `p` is the node's timer `id` and expires `delay` after the boot
-- time that the call reads, hangs in the wheel once more, and the timer that had this id is killed.
pub record Registered (node id delay now p : ℕ) (w : World) (r : Outcome (Bool × World))
    : Type 0 where
  pub world : World
  pub returns : r ≡ done (true, world)
  pub lookup :
      (i : ℕ) → find i (world.nodes node) ≡ (if id == i then some p else find i (w.nodes node))
  pub others : (n : ℕ) → n ≢ node → world.nodes n ≡ w.nodes n
  pub expires : (element world p).next_time ≡ add64 (get_boot_time now w).0 delay
  pub sink : (element world p).timer_sink ≡ some node
  pub number : (element world p).id ≡ id
  pub alive : (element world p).erased ≡ false
  pub replaced : (old : ℕ) → find id (w.nodes node) ≡ some old → (element world old).erased ≡ true
  pub same_time : world.cur_time ≡ w.cur_time
  pub hung : (q : ℕ) → occurs q world.wheel.slots ≡ occurs q w.wheel.slots + hit q p

-- The common end of the requests, from a state `w2` that differs from `w` in elements and pools only.
schedule-Registered :
    (node id delay now p : ℕ) (w w2 : World)
    → w2.nodes ≡ w.nodes
    → w2.wheel.slots ≡ w.wheel.slots
    → (get_boot_time now w2).0 ≡ (get_boot_time now w).0
    → w2.cur_time ≡ w.cur_time
    → find id (w.nodes node) ≢ some p
    → (element w2 p).timer_sink ≡ some node
    → (element w2 p).id ≡ id
    → (element w2 p).erased ≡ false
    → Registered node id delay now p w (done (true, schedule p node id delay now w2))
unfolding schedule get_boot_time add_element
schedule-Registered node id delay now p w w2 en es eb et new sink number alive = record {
  world = schedule p node id delay now w2;
  returns = refl;
  lookup = λ i.
      rw (nodes-install node id p w3 node, ==_self node, en) (find-insert id i p (w.nodes node));
  others = λ n ne. rw (nodes-install node id p w3 n, en) (ground arith);
  expires = ap (λ e. e.next_time) element_p ∙ ap (λ b. add64 b delay) eb;
  sink = ap (λ e. e.timer_sink) element_p ∙ sink;
  number = ap (λ e. e.id) element_p ∙ number;
  alive = ap (λ e. e.erased) element_p ∙ alive;
  replaced = λ old e. element-install_old node id p old w3 (rw en e);
  same_time = cur_time-install node id p w3 ∙ et;
  hung = λ q.
      rw (slots-install node id p w3)
        (occurs-add_timer_element q p _ ∙ ap (λ t. occurs q t + hit q p) es);
}
  where
    boot : ℕ
    boot = (get_boot_time now w2).0

    timed : Element
    timed = record (element w2 p) { next_time = add64 boot delay }

    itself : element (set_element p timed (get_boot_time now w2).1) p ≡ timed
    itself = rw (==_self p) refl

    w3 : World
    w3 = add_element p (set_element p timed (get_boot_time now w2).1)

    element_p : bare (element (install node id p w3) p) ≡ bare timed
    element_p =
        ap bare (element-install_other node id p p w3 (rw en new))
        ∙ (add_timer_element-SameBut p _).elements p
        ∙ ap bare itself

module _ (ndebug : Bool) (now p : ℕ) (w : World) (pool : DynamicRapidPool) where
  -- If the pool hands out an element that the node does not already hold under this id, `SetTimer`
  -- (or `SetTimerLambda`) returns true: the element is the node's timer of this id, is not killed,
  -- expires the first time after the boot time that the call reads, and hangs in the wheel once
  -- more, as no other element does; the element that had the id is killed, and the other ids, the
  -- other nodes and the current time are as they were.
  pub set_timer-Registered :
      (timer : Timer)
      → fetch_obj ndebug max_pool_s max_pool_i w.pool ≡ done (some p, pool)
      → find timer.id_event (w.nodes timer.node) ≢ some p
      → Registered timer.node timer.id_event timer.first now p w (set_timer ndebug timer now w)
  unfolding set_timer fetch_element prepare get_boot_time
  set_timer-Registered timer e new = rw e (
      schedule-Registered timer.node timer.id_event timer.first now p w _ refl refl refl refl new
        (rw (==_self p) refl) (rw (==_self p) refl) (rw (==_self p) refl))

  -- If the pool hands out an element that the node does not already hold under this id,
  -- `SetTimerCron` of an expression that is not empty and whose next time is `seconds` ahead
  -- returns true: the element is the node's timer of this id, is not killed, expires `seconds`
  -- times 1000 ms after the boot time that the call reads, and hangs in the wheel once more, as no
  -- other element does; the element that had the id is killed, and the other ids, the other nodes
  -- and the current time are as they were.
  pub set_timer_cron-Registered :
      (timer : CronTimer) (seconds : ℕ)
      → timer.cron ≢ []
      → fetch_obj ndebug max_pool_s max_pool_i w.pool ≡ done (some p, pool)
      → find timer.id_event (w.nodes timer.node) ≢ some p
      → Registered timer.node timer.id_event
          (mul64 seconds 1000)
          now
          p
          w
          (set_timer_cron ndebug timer (done seconds) now w)
  unfolding set_timer_cron fetch_element prepare_cron get_boot_time
  set_timer_cron-Registered timer seconds some_cron e new = elim (List-cases timer.cron) [
    | inl none_cron ↦ absurd (some_cron none_cron)
    | inr (b, bs, ec) ↦
        rw (ec, e, set_timer_cron)
          (schedule-Registered timer.node timer.id_event (mul64 seconds 1000) now p w _ refl refl
            refl refl new (rw (==_self p) refl) (rw (==_self p) refl) (rw (==_self p) refl))
  ]

-- A killed timer: its element is marked, the node has no timer of this id any more, and all else of
-- the nodes and the wheel is as it was.
pub record Killed (node id : ℕ) (w w' : World) : Type 0 where
  pub marked : (p : ℕ) → find id (w.nodes node) ≡ some p → (element w' p).erased ≡ true
  pub lookup : (i : ℕ) → find i (w'.nodes node) ≡ (if id == i then none else find i (w.nodes node))
  pub others : (n : ℕ) → n ≢ node → w'.nodes n ≡ w.nodes n
  pub same_slots : w'.wheel.slots ≡ w.wheel.slots

-- `KillTimer( uint64_t )`, on a node whose map is sorted, marks the element that the node holds
-- under the id, if there is one; afterwards the node has no timer of this id, and its other ids,
-- the other nodes and the lists of the wheel are as they were.
pub kill_timer-Killed :
    (node id : ℕ) (w : World) → IsSorted (w.nodes node) → Killed node id w (kill_timer node id w)
unfolding kill_timer kill_element kill
kill_timer-Killed node id w sorted = elim (Option-cases (find id (w.nodes node))) [
  | inl e ↦
      rw (e, kill_timer)
        (record {
          marked = λ p h. absurd (nothing_found p (sym e ∙ h));
          lookup = λ i. unknown i e;
          others = λ n ne. refl;
          same_slots = refl;
        })
  | inr (p, e) ↦
      rw (e, kill_timer)
        (record {
          marked = λ q h. let same : q ≡ p = cc in rw (same, ==_self p) refl;
          lookup = λ i. rw (==_self node) (find-erase id i (w.nodes node) sorted);
          others = λ n ne. ground arith;
          same_slots = refl;
        })
]
  where
    nothing_found : (p : ℕ) → ¬ (none ≡ some p)
    nothing_found p h = cc

    unknown :
        (i : ℕ)
        → find id (w.nodes node) ≡ none
        → find i (w.nodes node) ≡ (if id == i then none else find i (w.nodes node))
    unknown i e = elim (Bool-cases (id == i)) [
      | inl same ↦ rw same (rw (==→eq id i same) at e)
      | inr ne ↦ rw ne
    ]

-- the round of the work list for an element that is marked
fire-erased :
    (env : Env) (f : Call → World → List Op) (p : ℕ) (w : World) (events : ℕ)
    → (element w p).erased ≡ true
    → fire env p w events ≡ fire (record env { on_timer = f }) p w events
unfolding fire remove_timer_element
fire-erased env f p w events e = elim (Bool-cases ((element w p).linked)) [
  | inl l ↦ rw (l, e, ==_self p, fire) refl
  | inr l ↦ elim (Bool-cases env.ndebug) [
    | inl n ↦ rw (l, n, e, fire) refl
    | inr n ↦ rw (l, n, fire) refl
  ]
]

-- After `KillTimer( uint64_t )` of an id that the node holds, the round of the work list for its
-- element does the same whatever the timers' code would do: the killed timer is not called.
pub fire-kill_timer :
    (env : Env) (f : Call → World → List Op) (node id p : ℕ) (w : World) (events : ℕ)
    → find id (w.nodes node) ≡ some p
    → fire env p (kill_timer node id w) events
      ≡ fire (record env { on_timer = f }) p (kill_timer node id w) events
unfolding kill_timer kill_element kill
fire-kill_timer env f node id p w events e =
    fire-erased env f p _ events (rw (e, ==_self p, kill_timer) refl)

-- If `SetTimer` returns true with an element of the pool that the node does not already hold under
-- this id, the current time is not behind the boot time that the call reads, and that time plus the
-- first time fits 64 bits, then `GetTimerRemain` of the id gives this sum less the current time.
pub get_timer_remain-set_timer :
    (ndebug : Bool) (now p : ℕ) (w w' : World) (pool : DynamicRapidPool) (timer : Timer)
    → fetch_obj ndebug max_pool_s max_pool_i w.pool ≡ done (some p, pool)
    → find timer.id_event (w.nodes timer.node) ≢ some p
    → w.cur_time ≤ (get_boot_time now w).0
    → (get_boot_time now w).0 + timer.first < 2 ^ 64
    → set_timer ndebug timer now w ≡ done (true, w')
    → get_timer_remain timer.node timer.id_event w'
      ≡ (get_boot_time now w).0 + timer.first - w.cur_time
unfolding get_timer_remain
get_timer_remain-set_timer ndebug now p w w' pool timer e new onward small returned =
    let r = set_timer-Registered ndebug now p w pool timer e new in
    let same : r.world ≡ w' = cc in
    let found : find timer.id_event (w'.nodes timer.node) ≡ some p =
      ap (λ v. find timer.id_event (v.nodes timer.node)) (sym same)
      ∙ r.lookup timer.id_event
      ∙ rw (==_self timer.id_event) refl in
    let next : (element w' p).next_time ≡ (get_boot_time now w).0 + timer.first =
      ap (λ v. (element v p).next_time) (sym same) ∙ r.expires ∙ omega arith in
    let cur : w'.cur_time ≡ w.cur_time = ap (λ v. v.cur_time) (sym same) ∙ r.same_time in
    rw (found, next, cur, get_timer_remain) (ground arith)
