-- ===== src/World/Kept/Calls.antt =====
-- An invariant that is kept holds through the calls of a timer's code.
use dmtimer.Base.{
  ℕ, ◌^◌, ◌<◌, ◌≡◌, refl, true, List, [], ◌∷◌, Returns, returns, Returns-bind, Returns-value,
  Returns-and,
}
use dmtimer.World.{World, set_speed}
use dmtimer.World.Run.{
  Env, Op, sets, sets_cron, kills, resets, copies, assigns, sets_speed, apply, apply_all,
}
use dmtimer.World.Ready.{Frame, IsReady}
use dmtimer.World.Ready.Requests.{IsSaneOp, AreSane, apply-IsReady}
use dmtimer.World.Kept.{IsKept}

module _ {J : List ℕ → World → Type 0} (kept : IsKept J) {frame : Frame} {t : ℕ} {held : List ℕ}
    (env : Env) (release : env.ndebug ≡ true) where
  apply-kept :
      (op : Op) (w : World)
      → IsSaneOp env frame.limit frame.valid op w
      → IsReady frame t held w
      → J held w
      → Returns (J held) (apply env op w)
  unfolding apply set_speed
  apply-kept (sets timer now) w sane ready o =
      rw release (Returns-bind (kept.timer_set timer now w ready o) λ r o1. returns o1)
  apply-kept (sets_cron timer cur now) w (calm, parses, (seconds, e, soon)) ready o =
      rw (release, e) (Returns-bind (kept.cron_set timer seconds now w ready o) λ r o1. returns o1)
  apply-kept (kills node id) w sane ready o = returns (kept.timer_killed held node id w o)
  apply-kept (resets node) w sane ready o = returns (kept.timers_killed held node w o)
  apply-kept (copies node other) w sane ready o = absurd sane
  apply-kept (assigns node other) w sane ready o = absurd sane
  apply-kept (sets_speed speed) w sane ready o =
      returns (kept.same o (λ n. refl) refl (λ q. refl) (λ q. refl))

  pub apply_all-kept :
      (ops : List Op) (w : World)
      → frame.limit < 2 ^ 62
      → AreSane env frame.limit frame.valid ops w
      → IsReady frame t held w
      → J held w
      → Returns (J held) (apply_all env ops w)
  unfolding apply_all
  apply_all-kept [] w small sane ready o = returns o
  apply_all-kept (op ∷ ops) w small (sane, rest) ready o =
      let (w1, e, (ready1, o1)) = Returns-value (
        Returns-and (apply-IsReady env release op w small sane ready)
          (apply-kept op w sane ready o)) in
      rw e (apply_all-kept ops w1 small (rest w1 e) ready1 o1)
