-- ===== src/World/Ready.antt =====
-- The invariant of the timer module between and within the rounds of `Run`, and the single changes of
-- the state that keep it.
pub mod Changes
pub mod Requests
pub mod Fire
pub mod Tick
pub mod Rounds
pub mod Start
use dmtimer.Base.{
  ℕ, zero, suc, ◌+◌, ◌^◌, ◌≤◌, ◌<◌, ◌≡◌, ◌≢◌, refl, ap, sym, ◌∙◌, Bool, true, false, Option, none,
  some, List, [], ◌∷◌, ◌==◌, if◌then◌else◌, update, arith, count, hit, Bool-cases, ==→eq, inl, inr,
}
use dmtimer.Sink.{Element}
use dmtimer.RapidPool.{is_live, DynamicRapidPool}
use dmtimer.RapidPool.Dynamic.{IsDynamic}
use dmtimer.Wheel.{Level, Wheel, slot_of, add_timer_element}
use dmtimer.Wheel.Due.{Due, Due-mono, Due-shift, Ahead, slot_of-Due, Due-lt-size}
use dmtimer.Wheel.Occurs.{occurs, occurs-add_timer_element, count-le-occurs}
use dmtimer.Wheel.Timely.{
  expiry, expiry-add_timer_element, last_time-add_timer_element, add_timer_element-entries,
}
use dmtimer.Wheel.Kept.{bare, add_timer_element-SameBut}
use dmtimer.World.{World, element, set_element, add_element, max_pool_s, max_pool_i}

-- Every entry is due where it hangs when all ticks below `t` are done, and expires below 2 ^ 63.
pub record IsDue (t : ℕ) (w : Wheel) : Type 0 where
  pub due : (l : Level) (i p : ℕ) → 0 < count p (w.slots l i) → Due t t l i (expiry w p)
  pub soon : (l : Level) (i p : ℕ) → 0 < count p (w.slots l i) → expiry w p < 2 ^ 63

-- What an element has to be like for its next time to be in the future.
-- `valid` tells the cron expressions that parse.
pub record IsSane (valid : List ℕ → Bool) (e : Element) : Type 0 where
  pub interval : e.cd < 2 ^ 62
  pub advances : e.exact ≡ true → 0 < e.cd
  pub has_sink : (n : ℕ) × (e.timer_sink ≡ some n)
  pub parses : e.cron ≢ [] → valid e.cron ≡ true

pub IsSane-bare :
    {valid : List ℕ → Bool} {e e' : Element} → bare e' ≡ bare e → IsSane valid e → IsSane valid e'
IsSane-bare same s = record {
  interval = rw (ap (λ e. e.cd) same) s.interval;
  advances = λ c. rw (ap (λ e. e.cd) same) (s.advances (sym (ap (λ e. e.exact) same) ∙ c));
  has_sink = (s.has_sink.0, ap (λ e. e.timer_sink) same ∙ s.has_sink.1);
  parses = rw (ap (λ e. e.cron) same) s.parses;
}

-- The occurrences of an element in the wheel and among the elements that `Run` holds.
abbrev pub places : ℕ → List ℕ → World → ℕ
places q held w = occurs q w.wheel.slots + count q held

-- What stays as it is within a round: a bound of the clock, the cron expressions that parse,
-- `m_qwLastTime` and `m_qwCurTime`.
pub record Frame : Type 0 where
  pub limit : ℕ
  pub valid : List ℕ → Bool
  pub last : ℕ
  pub cur : ℕ

-- `t` is the first tick that is not done, and `held` are the elements that
-- `Run` has taken out of the wheel.
pub record IsReady (frame : Frame) (t : ℕ) (held : List ℕ) (w : World) : Type 0 where
  pub pools : IsDynamic max_pool_s max_pool_i w.pool
  pub due : IsDue t w.wheel
  pub once : (q : ℕ) → places q held w ≤ 1
  pub live : (q : ℕ) → 0 < places q held w → is_live max_pool_s w.pool q ≡ true
  pub sane : (q : ℕ) → 0 < places q held w → IsSane frame.valid (element w q)
  pub tick : w.wheel.last_time ≤ t
  pub near : t ≤ w.wheel.last_time + 1
  pub clock : t ≤ w.total_tick_count
  pub passed : frame.cur ≤ w.total_tick_count
  pub bounded : w.total_tick_count ≤ frame.limit
  pub at_last : w.wheel.last_time ≡ frame.last
  pub at_cur : w.cur_time ≡ frame.cur
  pub held_at : (q : ℕ) → 0 < count q held → (element w q).next_time ≡ frame.last

module _ {frame : Frame} {t : ℕ} {held : List ℕ} {w : World} (ready : IsReady frame t held w) where
  -- an entry of a slot is in a place
  pub entry-places : (l : Level) (i q : ℕ) → 0 < count q (w.wheel.slots l i) → 0 < places q held w
  entry-places l i q h =
      omega
        (arith, count-le-occurs q w.wheel.slots l i (Due-lt-size l t t i _ (ready.due.due l i q h)))

  pub place-ne : (p q : ℕ) → places p held w ≡ 0 → 0 < places q held w → (q == p) ≡ false
  place-ne p q free h = elim (Bool-cases (q == p)) [
    | inr n ↦ n
    | inl e ↦ absurd (no_place (rw (==→eq q p e) at h))
  ]
    where
      no_place : ¬ (0 < places p held w)
      no_place c = omega arith

  held_place : (q : ℕ) → 0 < count q held → 0 < places q held w
  held_place q h = omega arith

  -- a change of an element that is in no place
  pub set_element-IsReady :
      (p : ℕ) (e : Element) → places p held w ≡ 0 → IsReady frame t held (set_element p e w)
  set_element-IsReady p e free = record {
    pools = ready.pools;
    due = record {
      due =
          λ l i q h. rw (place-ne p q free (entry-places l i q h), expiry) (ready.due.due l i q h);
      soon =
          λ l i q h. rw (place-ne p q free (entry-places l i q h), expiry) (ready.due.soon l i q h);
    };
    once = ready.once;
    live = ready.live;
    sane = λ q h. rw (place-ne p q free h) (ready.sane q h);
    tick = ready.tick;
    near = ready.near;
    clock = ready.clock;
    passed = ready.passed;
    bounded = ready.bounded;
    at_last = ready.at_last;
    at_cur = ready.at_cur;
    held_at = λ q h. rw (place-ne p q free (held_place q h)) (ready.held_at q h);
  }

  -- a change of an element that keeps what the invariant speaks of
  pub alter_element-IsReady :
      (p : ℕ) (e : Element)
      → e.next_time ≡ (element w p).next_time
      → e.cd ≡ (element w p).cd
      → e.exact ≡ (element w p).exact
      → e.timer_sink ≡ (element w p).timer_sink
      → e.cron ≡ (element w p).cron
      → IsReady frame t held (set_element p e w)
  alter_element-IsReady p e en ec ee es er = record {
    pools = ready.pools;
    due = record {
      due = λ l i q h. rw (same_time q) (ready.due.due l i q h);
      soon = λ l i q h. rw (same_time q) (ready.due.soon l i q h);
    };
    once = ready.once;
    live = ready.live;
    sane = λ q h. elim (Bool-cases (q == p)) [
      | inl eq ↦
          let s : IsSane frame.valid (element w p) = rw (==→eq q p eq) at (ready.sane q h) in
          rw eq (record {
            interval = rw ec s.interval;
            advances = λ c. rw ec (s.advances (sym ee ∙ c));
            has_sink = (s.has_sink.0, es ∙ s.has_sink.1);
            parses = rw er s.parses;
          })
      | inr ne ↦ rw ne (ready.sane q h)
    ];
    tick = ready.tick;
    near = ready.near;
    clock = ready.clock;
    passed = ready.passed;
    bounded = ready.bounded;
    at_last = ready.at_last;
    at_cur = ready.at_cur;
    held_at = λ q h. same_time q ∙ ready.held_at q h;
  }
    where
      same_time : (q : ℕ) → (if q == p then e else element w q).next_time ≡ (element w q).next_time
      same_time q = ground (arith, en)

  -- `AddTimerElement` of an element that is in no place
  pub add_element-IsReady :
      (p : ℕ)
      → places p held w ≡ 0
      → is_live max_pool_s w.pool p ≡ true
      → IsSane frame.valid (element w p)
      → t ≤ (element w p).next_time
      → (element w p).next_time < 2 ^ 63
      → IsReady frame t held (add_element p w)
  unfolding add_element
  add_element-IsReady p free live_p sane_p from_t below = record {
    pools = ready.pools;
    due = record {
      due = λ l i q h. rw expiry-add_timer_element (
          add_timer_element-entries (λ l i q. Due t t l i (expiry w.wheel q)) p w.wheel
            ready.due.due new l i q h);
      soon = λ l i q h. rw expiry-add_timer_element (
          add_timer_element-entries (λ l i q. expiry w.wheel q < 2 ^ 63) p w.wheel ready.due.soon
            below l i q h);
    };
    once = λ q. elim (Bool-cases (q == p)) [
      | inl eq ↦ rw (==→eq q p eq) (ground (arith, occurs-add_timer_element p p w.wheel))
      | inr ne ↦ ground (arith, occurs-add_timer_element q p w.wheel, ready.once q)
    ];
    live = λ q h. elim (Bool-cases (q == p)) [
      | inl eq ↦ rw (==→eq q p eq) live_p
      | inr ne ↦ ready.live q (ground (arith, occurs-add_timer_element q p w.wheel))
    ];
    sane = λ q h.
        IsSane-bare {e = element w q} ((add_timer_element-SameBut p w.wheel).elements q)
          (elim (Bool-cases (q == p)) [
            | inl eq ↦ rw (==→eq q p eq) sane_p
            | inr ne ↦ ready.sane q (ground (arith, occurs-add_timer_element q p w.wheel))
          ]);
    tick = rw last_time-add_timer_element ready.tick;
    near = rw last_time-add_timer_element ready.near;
    clock = ready.clock;
    passed = ready.passed;
    bounded = ready.bounded;
    at_last = rw last_time-add_timer_element ready.at_last;
    at_cur = ready.at_cur;
    held_at = λ q h. expiry-add_timer_element q p w.wheel ∙ ready.held_at q h;
  }
    where
      last : ℕ
      last = w.wheel.last_time

      e : ℕ
      e = (element w p).next_time

      new : Due t t (slot_of e last).0 (slot_of e last).1 e
      new = Due-shift _ t last t _ e ready.tick from_t (
          Due-mono _ t (last + 1) last _ e ready.near
            (slot_of-Due e last (record { from_last = omega (arith, ready.tick); below = below })))
