-- ===== src/World/Kept/Rounds.antt =====
-- An invariant that is kept holds through `Run`.
use native.Mathlib.Nat.{le_trans}
use dmtimer.Base.{
  ℕ, zero, suc, ◌+◌, ◌^◌, ◌≤◌, ◌<◌, refl, ap, inl, inr, [], ◌==◌, arith, List, Bool-cases, Returns,
  returns, Returns-bind, Returns-and,
}
use dmtimer.Wheel.{detach}
use dmtimer.Wheel.Kept.{cascades-SameBut}
use dmtimer.World.{World, get_boot_time}
use dmtimer.World.Run.{Env, round, rounds, run}
use dmtimer.World.Ready.{Frame, IsReady}
use dmtimer.World.Ready.Changes.{IsCalm}
use dmtimer.World.Ready.Fire.{IsSound}
use dmtimer.World.Ready.Tick.{take-IsReady, taken-places}
use dmtimer.World.Ready.Rounds.{round-IsReady, start-IsReady}
use dmtimer.World.Kept.{IsKept, tag}
use dmtimer.World.Kept.Fire.{fire_all-kept}

module _ {J : List ℕ → World → Type 0} (kept : IsKept J) (env : Env) where
  round-kept :
      {frame : Frame} (w : World) (events : ℕ)
      → IsSound frame.limit frame.valid env
      → frame.limit < 2 ^ 62
      → frame.last < frame.cur
      → IsReady frame frame.last [] w
      → J [] w
      → Returns (λ (r : World × ℕ). J [] r.0) (round env w events)
  unfolding round detach
  round-kept {frame} w events sound small behind ready o =
      Returns-bind
        (fire_all-kept kept env sound small refl (omega arith) _ _ events
          (take-IsReady ready behind)
          (kept.same o (λ n. refl) refl (taken-places ready behind)
            (λ q. ap tag ((cascades-SameBut w.wheel).elements q))))
        λ r o1. returns (kept.same o1 (λ n. refl) refl (λ q. refl) (λ q. refl))

  rounds-kept :
      (fuel : ℕ) {frame : Frame} (w : World) (events : ℕ)
      → IsSound frame.limit frame.valid env
      → frame.limit < 2 ^ 62
      → frame.last ≤ frame.cur
      → frame.cur < frame.last + fuel
      → IsReady frame frame.last [] w
      → J [] w
      → Returns (λ (r : World × ℕ). J [] r.0) (rounds env fuel w events)
  unfolding rounds
  rounds-kept zero w events sound small behind enough ready o = absurd (omega arith)
  rounds-kept (suc fuel) {frame} w events sound small behind enough ready o =
      elim (Bool-cases (w.cur_time == w.wheel.last_time)) [
        | inl e ↦ rw (e, rounds) (returns o)
        | inr n ↦
            let later : frame.last < frame.cur = ground (arith, ready.at_last, ready.at_cur) in
            rw (n, rounds)
              (Returns-bind
                (Returns-and (round-IsReady env w events sound small later ready)
                  (round-kept w events sound small later ready o))
                λ r both.
                  rounds-kept fuel r.0 r.1 sound small (omega arith) (omega arith) both.0 both.1)
      ]

-- `Run` keeps the invariant.
pub run-kept :
    {J : List ℕ → World → Type 0} (kept : IsKept J) (env : Env) (fuel now : ℕ) (frame : Frame)
    (w : World)
    → IsSound frame.limit frame.valid env
    → frame.limit < 2 ^ 62
    → IsReady frame frame.last [] w
    → IsCalm frame.limit now w
    → (get_boot_time now w).0 < frame.last + fuel
    → J [] w
    → Returns (λ (r : World × ℕ). J [] r.0) (run env fuel now w)
unfolding run get_boot_time
run-kept kept env fuel now frame w sound small ready calm enough o =
    rounds-kept kept env fuel _ 0 sound small (le_trans ready.clock calm.onward) enough
      (start-IsReady ready calm) (kept.same o (λ n. refl) refl (λ q. refl) (λ q. refl))
