-- ===== src/World/Owned/Life.antt =====
-- The maps of the nodes when a killed element goes back to the pool, and in a new module: the agreement of maps
-- and wheel is kept throughout.
use mathlib.Core.Bool.{true≢false}
use dmtimer.Base.{
  ℕ, ◌+◌, ◌<◌, ◌≡◌, refl, sym, ◌∙◌, ap, true, false, some, List, [], ◌∷◌, ◌==◌, arith, count,
  Bool-cases, ==→eq, inl, inr, if◌then◌else◌, Returns, returns,
}
use dmtimer.Sink.{Element, reset}
use dmtimer.RapidPool.Dynamic.{release_obj-IsDynamic}
use dmtimer.Wheel.Occurs.{occurs, occurs-empty}
use dmtimer.World.{World, element, release_element, get_boot_time}
use dmtimer.World.Map.{find-nil}
use dmtimer.World.Life.{init}
use dmtimer.World.Ready.{Frame, IsReady, places}
use dmtimer.World.Ready.Fire.{drop-Held}
use dmtimer.World.Kept.{IsKept, tag}
use dmtimer.World.Owned.{IsOwned, Owns, same-IsOwned, shift-IsOwned}
use dmtimer.World.Owned.Kill.{kill_timer-IsOwned, kill_timers-IsOwned}
use dmtimer.World.Owned.Requests.{set_timer-IsOwned, set_timer_cron-IsOwned}

-- A killed element leaves the work list and goes back to the pool.
release_element-IsOwned :
    {frame : Frame} {t : ℕ} {held : List ℕ} (p : ℕ) (w : World)
    → IsReady frame t (p ∷ held) w
    → (element w p).erased ≡ true
    → IsOwned (p ∷ held) w
    → Returns (IsOwned held) (release_element true p w)
unfolding release_element
release_element-IsOwned {held} p w ready dead o =
    let out = drop-Held ready in
    let gone = release_obj-IsDynamic true p w.pool ready.pools out.live in
    rw gone.returns (returns (shift-IsOwned o (λ n. refl) onward (back out.free)))
  where
    no_place : places p held w ≡ 0 → ¬ (0 < places p held w)
    no_place free h = omega (arith, free, h)

    onward :
        (n i q : ℕ)
        → Owns (p ∷ held) w n i q
        → (0 < places q held w)
          × (tag (if q == p then reset (element w p) else element w q) ≡ (some n, i, false))
    onward n i q h = elim (Bool-cases (q == p)) [
      | inl eq ↦ absurd (true≢false (sym dead ∙ ap (λ t. t.2) (rw (==→eq q p eq) at (h.1))))
      | inr ne ↦ (ground (arith, h.0, ne), rw ne h.1)
    ]

    back :
        places p held w ≡ 0
        → (n i q : ℕ)
        → (0 < places q held w)
          × (tag (if q == p then reset (element w p) else element w q) ≡ (some n, i, false))
        → Owns (p ∷ held) w n i q
    back free n i q h = elim (Bool-cases (q == p)) [
      | inl eq ↦ absurd (no_place free (rw (==→eq q p eq) at (h.0)))
      | inr ne ↦ (ground (arith, h.0), rw ne at (h.1))
    ]

-- A new module has no timers.
pub init-IsOwned :
    (heap : ℕ → Element) (id_event now now_last now_cur : ℕ)
    → IsOwned [] (init heap id_event now now_last now_cur)
unfolding init get_boot_time
init-IsOwned heap id_event now now_last now_cur = record {
  sorted = λ n. tt;
  holds = λ n i p e. absurd (find-nil i p e);
  listed = λ n i p h. absurd (nowhere p h.0);
}
  where
    nowhere : (q : ℕ) → ¬ (0 < occurs q (λ l i. []) + count q [])
    nowhere q h = omega (arith, occurs-empty q)

pub IsOwned-IsKept : IsKept IsOwned
IsOwned-IsKept = record {
  same = λ o nodes pool at tags. same-IsOwned o nodes at (λ q h. tags q);
  timer_set = set_timer-IsOwned;
  cron_set = set_timer_cron-IsOwned;
  timer_killed = kill_timer-IsOwned;
  timers_killed = kill_timers-IsOwned;
  released = release_element-IsOwned;
}
