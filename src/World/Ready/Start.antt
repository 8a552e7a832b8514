-- ===== src/World/Ready/Start.antt =====
-- The invariant holds for a new module.
use dmtimer.Base.{ℕ, ◌+◌, ◌≤◌, ◌<◌, refl, Bool, List, [], arith, count}
use dmtimer.Sink.{Element}
use dmtimer.RapidPool.Dynamic.{make_dynamic_pool-IsDynamic}
use dmtimer.Wheel.Occurs.{occurs, occurs-empty}
use dmtimer.World.{max_pool_s, max_pool_i, get_boot_time}
use dmtimer.World.Life.{init}
use dmtimer.World.Ready.{IsReady}

not_listed : (q : ℕ) → ¬ (0 < count q [])
not_listed q h = omega arith

-- A new module, whose clock does not go back between the two readings of `Init` nor passes `limit`,
-- is ready at the first reading.
pub init-IsReady :
    (heap : ℕ → Element) (id_event now now_last now_cur limit : ℕ) (valid : List ℕ → Bool)
    → (init heap id_event now now_last now_cur).wheel.last_time
      ≤ (init heap id_event now now_last now_cur).cur_time
    → (init heap id_event now now_last now_cur).cur_time ≤ limit
    → IsReady
        (record {
          limit = limit;
          valid = valid;
          last = (init heap id_event now now_last now_cur).wheel.last_time;
          cur = (init heap id_event now now_last now_cur).cur_time;
        })
        (init heap id_event now now_last now_cur).wheel.last_time
        []
        (init heap id_event now now_last now_cur)
unfolding init get_boot_time
init-IsReady heap id_event now now_last now_cur limit valid onward within = record {
  pools =
      (make_dynamic_pool-IsDynamic max_pool_s max_pool_i (omega arith) (omega arith)
        (omega arith)).0;
  due = record {
    due = λ l i p h. absurd (not_listed p h);
    soon = λ l i p h. absurd (not_listed p h);
  };
  once = λ q. omega (arith, occurs-empty q);
  live = λ q h. absurd (nowhere q h);
  sane = λ q h. absurd (nowhere q h);
  tick = omega arith;
  near = omega arith;
  clock = onward;
  passed = omega arith;
  bounded = within;
  at_last = refl;
  at_cur = refl;
  held_at = λ q h. absurd (not_listed q h);
}
  where
    nowhere : (q : ℕ) → ¬ (0 < occurs q (λ l i. []) + count q [])
    nowhere q h = omega (arith, occurs-empty q)
