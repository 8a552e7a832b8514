-- ===== src/World/Owned/Requests.antt =====
-- The maps of the nodes under the methods that set timers.
use mathlib.Core.Bool.{false≢true}
use dmtimer.Base.{
  ℕ, ◌<◌, ◌≡◌, refl, sym, ◌∙◌, Bool, true, false, Option, none, some, List, mul64, arith, ==_self,
  inl, inr, List-cases, done, assert, Returns, returns, Returns-bind, Returns-and,
}
use dmtimer.RapidPool.Dynamic.{fetch_obj-IsDynamic}
use dmtimer.World.{World, element, set_element, new_element, fetch_element, get_boot_time}
use dmtimer.World.Node.{
  Timer, CronTimer, prepare, prepare_cron, schedule, set_timer, set_timer_cron,
}
use dmtimer.World.Ready.{Frame, IsReady, places}
use dmtimer.World.Ready.Changes.{Granted, fetch_element-IsReady}
use dmtimer.World.Kept.{tag}
use dmtimer.World.Owned.{IsOwned, same-IsOwned, set_element-IsOwned, place-IsOwned}

schedule-IsOwned :
    {held : List ℕ} (p node id delay now : ℕ) (w : World)
    → places p held w ≡ 0
    → tag (element w p) ≡ (some node, id, false)
    → IsOwned held w
    → IsOwned held (schedule p node id delay now w)
unfolding schedule get_boot_time
schedule-IsOwned p node id delay now w free own o =
    place-IsOwned
      (set_element-IsOwned p _ free (same-IsOwned o (λ n. refl) (λ q. refl) (λ q h. refl))) node id
      p free (rw (==_self p) own)

module _ {frame : Frame} {t : ℕ} {held : List ℕ} where
  fetch_element-IsOwned :
      (w : World)
      → IsReady frame t held w
      → IsOwned held w
      → Returns (λ (r : Option ℕ × World). IsOwned held r.1) (fetch_element true w)
  unfolding fetch_element
  fetch_element-IsOwned w ready o = elim (fetch_obj-IsDynamic true w.pool ready.pools) [
    | inl (none_left, e) ↦ rw e (returns (same-IsOwned o (λ n. refl) (λ q. refl) (λ q h. refl)))
    | inr got ↦
        let free : places got.object held w ≡ 0 =
          nowhere (λ h. false≢true (sym got.was_free ∙ ready.live got.object h)) in
        rw got.returns (
          returns (
            same-IsOwned (set_element-IsOwned got.object new_element free o) (λ n. refl) (λ q. refl)
              (λ q h. refl)))
  ]
    where
      nowhere : {n : ℕ} → ¬ (0 < n) → n ≡ 0
      nowhere h = omega arith

  pub set_timer-IsOwned :
      (timer : Timer) (now : ℕ) (w : World)
      → IsReady frame t held w
      → IsOwned held w
      → Returns (λ (r : Bool × World). IsOwned held r.1) (set_timer true timer now w)
  unfolding set_timer prepare
  set_timer-IsOwned timer now w ready o =
      Returns-bind (Returns-and (fetch_element-IsReady ready) (fetch_element-IsOwned w ready o))
        granted
    where
      granted :
          (r : Option ℕ × World)
          → Granted ready r × IsOwned held (r.1)
          → Returns
              (λ (r : Bool × World). IsOwned held r.1)
              (elim (r.0) [
                | none ↦ assert true false (done (false, r.1))
                | some p ↦
                    let w2 = set_element p (prepare timer (element r.1 p)) r.1 in
                    done (true, schedule p timer.node timer.id_event timer.first now w2)
              ])
      granted (none, w1) (g, o1) = returns o1
      granted (some p, w1) ((ready1, free, live, new, same), o1) = returns (
          schedule-IsOwned p timer.node timer.id_event timer.first now _ free (rw (==_self p) refl)
            (set_element-IsOwned p (prepare timer (element w1 p)) free o1))

  pub set_timer_cron-IsOwned :
      (timer : CronTimer) (seconds now : ℕ) (w : World)
      → IsReady frame t held w
      → IsOwned held w
      → Returns
          (λ (r : Bool × World). IsOwned held r.1)
          (set_timer_cron true timer (done seconds) now w)
  unfolding set_timer_cron prepare_cron
  set_timer_cron-IsOwned timer seconds now w ready o = elim (List-cases timer.cron) [
    | inl e ↦ rw (e, set_timer_cron) (returns o)
    | inr (b, bs, e) ↦
        rw (e, set_timer_cron)
          (Returns-bind
            (Returns-and (fetch_element-IsReady ready) (fetch_element-IsOwned w ready o)) granted)
  ]
    where
      granted :
          (r : Option ℕ × World)
          → Granted ready r × IsOwned held (r.1)
          → Returns
              (λ (r : Bool × World). IsOwned held r.1)
              (elim (r.0) [
                | none ↦ assert true false (done (false, r.1))
                | some p ↦
                    let w2 = set_element p (prepare_cron timer (element r.1 p)) r.1 in
                    done (true, schedule p timer.node timer.id_event (mul64 seconds 1000) now w2)
              ])
      granted (none, w1) (g, o1) = returns o1
      granted (some p, w1) ((ready1, free, live, new, same), o1) = returns (
          schedule-IsOwned p timer.node timer.id_event (mul64 seconds 1000) now _ free
            (rw (==_self p) refl)
            (set_element-IsOwned p (prepare_cron timer (element w1 p)) free o1))
