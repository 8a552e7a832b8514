-- ===== src/World/Node.antt =====
-- src/dmtimernode.cpp: the methods of `CDMTimerNode`. A node is the address of its map; `now` is what
-- `GetTickCount32` returns during the call, and a call that the source makes without a clock has none.
use dmtimer.Base.{
  ℕ, Bool, true, false, Option, none, some, List, [], ◌∷◌, ltb, ◌==◌, if◌then◌else◌, add64, sub64,
  mul64, update, Outcome, done, assert, ◌>>=◌,
}
use dmtimer.Sink.{Element, kill}
use dmtimer.World.{World, element, set_element, get_boot_time, add_element, fetch_element, install}
use dmtimer.World.Map.{TimerElementMap, find, erase}

-- The arguments of `SetTimer` (`fun_timer` is `none`) and `SetTimerLambda`, with the node.
pub record Timer : Type 0 where
  pub node : ℕ
  pub id_event : ℕ
  pub elapse : ℕ
  pub first : ℕ
  pub any : Option ℕ
  pub exact : Bool
  pub fun_timer : Option ℕ

-- The arguments of `SetTimerCron`, with the node.
pub record CronTimer : Type 0 where
  pub node : ℕ
  pub id_event : ℕ
  pub cron : List ℕ
  pub fun_timer : Option ℕ

-- The assignments to the fetched element but for `m_qwNextTime`. `SetTimer` assigns no function: the
-- function of a fresh element is null.
unfoldable pub prepare : Timer → Element → Element
prepare t e = record e {
  timer_sink = some t.node;
  id = t.id_event;
  cd = t.elapse;
  erased = false;
  exact = t.exact;
  any = t.any;
  fun_timer = t.fun_timer;
}

unfoldable pub prepare_cron : CronTimer → Element → Element
prepare_cron t e = record e {
  timer_sink = some t.node;
  id = t.id_event;
  erased = false;
  cron = t.cron;
  fun_timer = t.fun_timer;
}

-- The rest of such a call: `m_qwNextTime = GetBootTime() + delay`, `AddTimerElement`, and the map.
unfoldable pub schedule : ℕ → ℕ → ℕ → ℕ → ℕ → World → World
schedule p node id delay now w =
    let (boot, w1) = get_boot_time now w in
    install node id p
      (add_element p (set_element p (record (element w1 p) { next_time = add64 boot delay }) w1))

-- `SetTimer` and `SetTimerLambda`, each with all its arguments
unfoldable pub set_timer : Bool → Timer → ℕ → World → Outcome (Bool × World)
set_timer ndebug t now w = do
  (o, w1) ← fetch_element ndebug w
  elim o [
    | none ↦ assert ndebug false (done (false, w1))
    | some p ↦
        let w2 = set_element p (prepare t (element w1 p)) w1 in
        done (true, schedule p t.node t.id_event t.first now w2)
  ]

-- The overloads: without the first time it is the interval, without a payload there is none, and
-- without `bExact` it is false.
unfoldable pub set_timer_every : Bool → ℕ → ℕ → ℕ → Option ℕ → ℕ → World → Outcome (Bool × World)
set_timer_every ndebug node id elapse fun_timer now w =
    set_timer ndebug
      (record {
        node = node;
        id_event = id;
        elapse = elapse;
        first = elapse;
        any = none;
        exact = false;
        fun_timer = fun_timer;
      })
      now w

unfoldable pub set_timer_first :
    Bool → ℕ → ℕ → ℕ → ℕ → Option ℕ → ℕ → World → Outcome (Bool × World)
set_timer_first ndebug node id elapse first fun_timer now w =
    set_timer ndebug
      (record {
        node = node;
        id_event = id;
        elapse = elapse;
        first = first;
        any = none;
        exact = false;
        fun_timer = fun_timer;
      })
      now w

unfoldable pub set_timer_any :
    Bool → ℕ → ℕ → ℕ → Option ℕ → Bool → ℕ → World → Outcome (Bool × World)
set_timer_any ndebug node id elapse any exact now w =
    set_timer ndebug
      (record {
        node = node;
        id_event = id;
        elapse = elapse;
        first = elapse;
        any = any;
        exact = exact;
        fun_timer = none;
      })
      now w

-- `SetTimerCron`, when `make_cron` and `cron_next(..) - cur` give `next` seconds, a 64-bit word, or an
-- exception leaves them. The element is fetched before the expression is parsed.
unfoldable pub set_timer_cron : Bool → CronTimer → Outcome ℕ → ℕ → World → Outcome (Bool × World)
set_timer_cron ndebug t next now w = elim (t.cron) [
  | [] ↦ assert ndebug false (done (false, w))
  | _ ∷ _ ↦ do
    (o, w1) ← fetch_element ndebug w
    elim o [
      | none ↦ assert ndebug false (done (false, w1))
      | some p ↦ (do
        seconds ← next
        done (
          true,
          schedule p t.node t.id_event (mul64 seconds 1000) now
              (set_element p (prepare_cron t (element w1 p)) w1),
        ))
    ]
]

-- `CDMTimerElement::Kill` of the element at an address
unfoldable pub kill_element : ℕ → World → World
kill_element p w = set_element p (kill (element w p)) w

-- `KillTimer( uint64_t )`
unfoldable pub kill_timer : ℕ → ℕ → World → World
kill_timer node id w = elim (find id (w.nodes node)) [
  | none ↦ w
  | some p ↦
      let w' = kill_element p w in
      record w' { nodes = update w'.nodes node (erase id (w'.nodes node)) }
]

-- the loop of `KillTimer()` over the map
unfoldable pub kill_elements : TimerElementMap → World → World
kill_elements [] w = w
kill_elements ((id, p) ∷ m) w = kill_elements m (kill_element p w)

-- `KillTimer()`, which is also `Reset` and the destructor
unfoldable pub kill_timers : ℕ → World → World
kill_timers node w =
    let w' = kill_elements (w.nodes node) w in record w' { nodes = update w'.nodes node [] }

-- One round of `CopyFrom`: the copied element has a place in the lists of its own.
unfoldable pub copy_element : Bool → ℕ → ℕ → World → Outcome World
copy_element ndebug node source w = do
  (o, w1) ← fetch_element ndebug w
  elim o [
    | none ↦ assert ndebug false (done w1)
    | some p ↦
        let e = record (element w1 source) { timer_sink = some node } in
        done (install node e.id p (add_element p (set_element p e w1)))
  ]

-- `CopyFrom` over the map of the other node
unfoldable pub copy_elements : Bool → ℕ → TimerElementMap → World → Outcome World
copy_elements ndebug node [] w = done w
copy_elements ndebug node ((id, source) ∷ m) w = do
  w' ← copy_element ndebug node source w
  copy_elements ndebug node m w'

unfoldable pub copy_from : Bool → ℕ → ℕ → World → Outcome World
copy_from ndebug node other w = copy_elements ndebug node (w.nodes other) w

-- `operator=`
unfoldable pub assign : Bool → ℕ → ℕ → World → Outcome World
assign ndebug node other w =
    if node == other then done w else copy_from ndebug node other (kill_timers node w)

-- `GetTimerElement`
unfoldable pub get_timer_element : ℕ → ℕ → World → Option ℕ
get_timer_element node id w = find id (w.nodes node)

-- `GetTimerElapse`
unfoldable pub get_timer_elapse : ℕ → ℕ → World → ℕ
get_timer_elapse node id w = elim (find id (w.nodes node)) [
  | none ↦ 0
  | some p ↦
      let e = element w p in
      let start_time = sub64 e.next_time e.cd in
      if ltb start_time w.cur_time then sub64 w.cur_time start_time else 0
]

-- `GetTimerRemain`
unfoldable pub get_timer_remain : ℕ → ℕ → World → ℕ
get_timer_remain node id w = elim (find id (w.nodes node)) [
  | none ↦ 0
  | some p ↦
      let next_time = (element w p).next_time in
      if ltb w.cur_time next_time then sub64 next_time w.cur_time else 0
]
