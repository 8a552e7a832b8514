-- ===== src/World/Reach.antt =====
-- The states that the program reaches: `Init`, then calls of the nodes' methods and of `Run`, in any order.
use dmtimer.Base.{
  same_if, ℕ, ◌+◌, ◌^◌, ◌≤◌, ◌<◌, ◌≡◌, Bool, true, false, some, Returns-value, Returns, returns,
  List, [], arith, done, Returns-and, Returns-done, Returns-mono, Bool-cases, inl, inr, ltb, ◌∙◌,
}
use dmtimer.Sink.{Element}
use dmtimer.RapidPool.{is_live}
use dmtimer.Wheel.Occurs.{occurs, occurs-where}
use dmtimer.World.{World, element, get_boot_time, max_pool_s}
use dmtimer.World.Map.{find}
use dmtimer.World.Life.{init}
use dmtimer.World.Run.{Env, Call, Op, run, apply_all}
use dmtimer.World.OnTime.{IsDueCall, with_code, run-with_code}
use dmtimer.World.Ready.{IsReady}
use dmtimer.World.Ready.Changes.{IsCalm}
use dmtimer.World.Ready.Start.{init-IsReady}
use dmtimer.World.Ready.Requests.{AreSane, apply_all-IsReady}
use dmtimer.World.Ready.Fire.{IsSound}
use dmtimer.World.Ready.Rounds.{run-Caught}
use dmtimer.World.Kept.{IsKept, tag, both-IsKept}
use dmtimer.World.Kept.Calls.{apply_all-kept}
use dmtimer.World.Kept.Rounds.{run-kept}
use dmtimer.World.Owned.{IsOwned}
use dmtimer.World.Owned.Life.{IsOwned-IsKept, init-IsOwned}
use dmtimer.World.Tight.{IsTight, IsTight-IsKept, init-IsTight}
use dmtimer.World.Life.{un_init}
use dmtimer.World.Release.{un_init-IsEmptied}
use dmtimer.Wheel.{Level}
use dmtimer.Wheel.Due.{size}

-- A constructor per step: the new module, a sequence of sane calls from outside a timer, and a call of
-- `Run` with fuel for more rounds than there are ticks to catch up with.
pub data IsReached (env : Env) (limit : ℕ) (valid : List ℕ → Bool) : World → Type 0 where
  starts :
      (heap : ℕ → Element) (id_event now now_last now_cur : ℕ)
      → (init heap id_event now now_last now_cur).wheel.last_time
        ≤ (init heap id_event now now_last now_cur).cur_time
      → (init heap id_event now now_last now_cur).cur_time ≤ limit
      → IsReached env limit valid (init heap id_event now now_last now_cur)
  requests :
      {w w' : World}
      → IsReached env limit valid w
      → (ops : List Op) → AreSane env limit valid ops w
      → apply_all env ops w ≡ done w'
      → IsReached env limit valid w'
  runs :
      {w w' : World}
      → IsReached env limit valid w
      → (fuel now events : ℕ) → IsCalm limit now w
      → (get_boot_time now w).0 < w.wheel.last_time + fuel
      → run env fuel now w ≡ done (w', events)
      → IsReached env limit valid w'

-- What the maps of the nodes and the wheel say of each other.
pub record IsSafe (w : World) : Type 0 where
  pub live : (n i p : ℕ) → find i (w.nodes n) ≡ some p → is_live max_pool_s w.pool p ≡ true
  pub hung : (n i p : ℕ) → find i (w.nodes n) ≡ some p → occurs p w.wheel.slots ≡ 1
  pub named : (n i p : ℕ) → find i (w.nodes n) ≡ some p → tag (element w p) ≡ (some n, i, false)
  pub listed :
      (n i p : ℕ)
      → 0 < occurs p w.wheel.slots
      → tag (element w p) ≡ (some n, i, false)
      → find i (w.nodes n) ≡ some p
  pub none_lost : (p : ℕ) → is_live max_pool_s w.pool p ≡ true → occurs p w.wheel.slots ≡ 1

-- maps and wheel agree, and no element is lost
abbrev Sound : List ℕ → World → Type 0
Sound held w = IsOwned held w × IsTight held w

Sound-IsKept : IsKept Sound
Sound-IsKept = both-IsKept IsOwned-IsKept IsTight-IsKept

-- the invariants of a reached state
abbrev Holds : ℕ → (List ℕ → Bool) → World → Type 0
Holds limit valid w =
    (last : ℕ) × (cur : ℕ) × IsReady
      (record { limit = limit; valid = valid; last = last; cur = cur }) last [] w
    × Sound [] w

module _ (env : Env) (limit : ℕ) (valid : List ℕ → Bool) (sound : IsSound limit valid env)
    (small : limit < 2 ^ 62) where
  reached-Holds : (w : World) → IsReached env limit valid w → Holds limit valid w
  reached-Holds w (starts heap id_event now now_last now_cur onward within) = (
    _,
    _,
    init-IsReady heap id_event now now_last now_cur limit valid onward within,
    (
      init-IsOwned heap id_event now now_last now_cur,
      init-IsTight heap id_event now now_last now_cur,
    ),
  )
  reached-Holds w' (requests {w} before ops sane e) =
      let (last, cur, ready, o) = reached-Holds w before in
      let (ready', o') = Returns-done (
        rw e at (
          Returns-and (apply_all-IsReady env sound.release ops w small sane ready)
            (apply_all-kept Sound-IsKept env sound.release ops w small sane ready o))) in
      (last, cur, ready', o')
  reached-Holds w' (runs {w} before fuel now events calm enough e) =
      let (last, cur, ready, o) = reached-Holds w before in
      let soon : (get_boot_time now w).0 < last + fuel = omega (arith, enough, ready.at_last) in
      let (caught, o') = Returns-done (
        rw e at (
          Returns-and (run-Caught env fuel now _ w sound small ready calm soon)
            (run-kept Sound-IsKept env fuel now _ w sound small ready calm soon o))) in
      (_, _, caught.ready, o')

  -- In every state that the program reaches by `Init`, by calls of SetTimer, SetTimerLambda,
  -- SetTimerCron, KillTimer and SetSpeed that are sane in the state that they meet (`IsSaneOp`) and
  -- by calls of `Run`, in any order, with timers' code within `IsSound` and a limit of the clock
  -- below 2 ^ 62 ms, the maps of the nodes and the wheel agree. No timer is lost: every live object
  -- of the pool hangs in the wheel exactly once. Every pointer that a map holds is a live object of
  -- the pool, hangs in the wheel exactly once, names the node and the id, and is not killed; and
  -- every element in the wheel that is not killed is in the map of its node under its id.
  pub reached-IsSafe : (w : World) → IsReached env limit valid w → IsSafe w
  reached-IsSafe w reached =
      let (last, cur, ready, o) = reached-Holds w reached in
      record {
        live = λ n i p e. ready.live p (o.0.holds n i p e).0;
        hung = λ n i p e. omega (arith, (o.0.holds n i p e).0, ready.once p);
        named = λ n i p e. (o.0.holds n i p e).1;
        none_lost = λ p h. omega (arith, o.1 p h, ready.once p);
        listed = λ n i p h t. o.0.listed n i p (omega (arith, h), t);
      }

  -- From every state that the program reaches (`IsReached`), with timers' code within `IsSound` and
  -- a limit of the clock below 2 ^ 62 ms, `Run` with more fuel than there are ticks to catch up
  -- with returns, when the clock neither goes back nor passes the limit. It leaves a reached state
  -- again, `m_qwLastTime` is the time that it read, and no timer in a node's map expires before
  -- that time.
  pub reached-run :
      (fuel now : ℕ) (w : World)
      → IsReached env limit valid w
      → IsCalm limit now w
      → (get_boot_time now w).0 < w.wheel.last_time + fuel
      → Returns
          (λ (r : World × ℕ).
            IsReached env limit valid r.0
            × (r.0.wheel.last_time ≡ (get_boot_time now w).0)
            × ((n i p : ℕ)
                → find i (r.0.nodes n) ≡ some p
                → (get_boot_time now w).0 ≤ (element r.0 p).next_time))
          (run env fuel now w)
  reached-run fuel now w reached calm enough =
      let (last, cur, ready, o) = reached-Holds w reached in
      let soon : (get_boot_time now w).0 < last + fuel = omega (arith, enough, ready.at_last) in
      let (r, e, (caught, o')) = Returns-value (
        Returns-and (run-Caught env fuel now _ w sound small ready calm soon)
          (run-kept Sound-IsKept env fuel now _ w sound small ready calm soon o)) in
      rw e (
        returns (
          runs reached fuel now r.1 calm enough e,
          caught.ready.at_last,
          λ n i p f.
              let (l, k, c) =
                occurs-where p r.0.wheel.slots (omega (arith, (o'.0.holds n i p f).0)) in
              let time = caught.none_overdue l k p c in rw caught.ready.at_cur at time,
        ))

  -- From every state that the program reaches (`IsReached`), with timers' code within `IsSound` and
  -- a limit of the clock below 2 ^ 62 ms, `UnInit`, with assertions compiled out, returns. Every
  -- slot of the five vectors is empty then, and no object of the pool is live: each has gone back.
  pub reached-un_init :
      (w : World)
      → IsReached env limit valid w
      → Returns
          (λ (w' : World).
            ((l : Level) (i : ℕ) → i < size l → w'.wheel.slots l i ≡ [])
            × ((p : ℕ) → is_live max_pool_s w'.pool p ≡ false))
          (un_init true w)
  reached-un_init w reached =
      let (last, cur, ready, o) = reached-Holds w reached in
      Returns-mono (un_init-IsEmptied ready) λ w' e. (
        e.slots,
        λ p. e.lives p ∙ elim (Bool-cases (is_live max_pool_s w.pool p)) [
          | inl live ↦ ground (arith, o.1 p live)
          | inr dead ↦ rw dead (same_if (ltb 0 (occurs p w.wheel.slots)) false)
        ],
      )

  -- In every state that the program reaches (`IsReached`), with timers' code within `IsSound` and a
  -- limit of the clock below 2 ^ 62 ms, and when the clock neither goes back nor passes the limit,
  -- `Run` calls the timers' code only on behalf of elements that are due: any other code of the
  -- timers that does the same at every call that belongs to an element (of its function with its
  -- id, or, if it has none, of `OnTimer` of its own sink with its id and payload) which is not
  -- killed and expires exactly at the tick `m_qwLastTime`, when the current time has passed this
  -- tick (`IsDueCall`), makes no difference to what `Run` does.
  pub reached-run-with_code :
      (code : Call → World → List Op) (fuel now : ℕ) (w : World)
      → IsReached env limit valid w
      → IsCalm limit now w
      → ((c : Call) (w : World) → IsDueCall c w → code c w ≡ env.on_timer c w)
      → run (with_code env code) fuel now w ≡ run env fuel now w
  reached-run-with_code code fuel now w reached calm same =
      let (last, cur, ready, o) = reached-Holds w reached in
      run-with_code env code same fuel now w sound small ready calm
