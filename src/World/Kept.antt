-- ===== src/World/Kept.antt =====
-- What an invariant of the places of the elements has to show to hold through the calls of a timer's code and
-- through `Run`: World/Owned and World/Tight are two such invariants.
pub mod Calls
pub mod Fire
pub mod Rounds
use dmtimer.Base.{ℕ, ◌≡◌, Bool, true, Option, List, ◌∷◌, done, Returns, Returns-and}
use dmtimer.Sink.{Element}
use dmtimer.World.{World, element, release_element}
use dmtimer.World.Node.{Timer, CronTimer, set_timer, set_timer_cron, kill_timer, kill_timers}
use dmtimer.World.Ready.{Frame, IsReady, places}

-- what an element says of its timer: the node, the id, and whether it is killed
abbrev pub tag : Element → Option ℕ × ℕ × Bool
tag e = (e.timer_sink, e.id, e.erased)

-- The invariant `J` speaks of the maps, the pool, the places of the elements and their timers, and the methods
-- and the release of a killed element keep it.
pub record IsKept (J : List ℕ → World → Type 0) : Type 0 where
  pub same :
      {held held' : List ℕ} {w w' : World}
      → J held w
      → ((n : ℕ) → w'.nodes n ≡ w.nodes n)
      → w'.pool ≡ w.pool
      → ((q : ℕ) → places q held' w' ≡ places q held w)
      → ((q : ℕ) → tag (element w' q) ≡ tag (element w q))
      → J held' w'
  pub timer_set :
      {frame : Frame} {t : ℕ} {held : List ℕ} (timer : Timer) (now : ℕ) (w : World)
      → IsReady frame t held w
      → J held w
      → Returns (λ (r : Bool × World). J held r.1) (set_timer true timer now w)
  pub cron_set :
      {frame : Frame} {t : ℕ} {held : List ℕ} (timer : CronTimer) (seconds now : ℕ) (w : World)
      → IsReady frame t held w
      → J held w
      → Returns (λ (r : Bool × World). J held r.1) (set_timer_cron true timer (done seconds) now w)
  pub timer_killed :
      (held : List ℕ) (node id : ℕ) (w : World) → J held w → J held (kill_timer node id w)
  pub timers_killed :
      (held : List ℕ) (node : ℕ) (w : World) → J held w → J held (kill_timers node w)
  pub released :
      {frame : Frame} {t : ℕ} {held : List ℕ} (p : ℕ) (w : World)
      → IsReady frame t (p ∷ held) w
      → (element w p).erased ≡ true
      → J (p ∷ held) w
      → Returns (J held) (release_element true p w)

-- Two invariants that are kept are kept together.
pub both-IsKept :
    {J K : List ℕ → World → Type 0} → IsKept J → IsKept K → IsKept (λ held w. J held w × K held w)
both-IsKept j k = record {
  same = λ h nodes pool at tags. (j.same h.0 nodes pool at tags, k.same h.1 nodes pool at tags);
  timer_set = λ timer now w ready h.
      Returns-and (j.timer_set timer now w ready h.0) (k.timer_set timer now w ready h.1);
  cron_set = λ timer seconds now w ready h.
      Returns-and (j.cron_set timer seconds now w ready h.0)
        (k.cron_set timer seconds now w ready h.1);
  timer_killed =
      λ held node id w h. (j.timer_killed held node id w h.0, k.timer_killed held node id w h.1);
  timers_killed =
      λ held node w h. (j.timers_killed held node w h.0, k.timers_killed held node w h.1);
  released = λ p w ready dead h.
      Returns-and (j.released p w ready dead h.0) (k.released p w ready dead h.1);
}
