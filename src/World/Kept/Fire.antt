-- ===== src/World/Kept/Fire.antt =====
-- An invariant that is kept holds through the work list of a round of `Run`.
use dmtimer.Base.{
  ℕ, ◌+◌, ◌^◌, ◌≤◌, ◌<◌, ◌≡◌, refl, ap, true, List, [], ◌∷◌, ◌==◌, arith, Bool-cases, ==→eq, inl,
  inr, done, ◌>>=◌, Returns, returns, Returns-bind, Returns-and,
}
use dmtimer.Sink.{Element}
use dmtimer.Wheel.Occurs.{occurs-add_timer_element}
use dmtimer.Wheel.Kept.{add_timer_element-SameBut}
use dmtimer.World.{
  World, element, set_element, add_element, release_element, remove_timer_element, set_timer_info,
  del_timer_info,
}
use dmtimer.World.Run.{Env, call_timer, rearm, fire, fire_all}
use dmtimer.World.Ready.{Frame, IsReady, IsSane}
use dmtimer.World.Ready.Changes.{carry-IsReady}
use dmtimer.World.Ready.Fire.{
  IsSound, Held, drop-Held, drop-IsReady, remove_timer_element-IsReady, call_timer-IsReady,
  next_time-later, fire-IsReady,
}
use dmtimer.World.Kept.{IsKept, tag}
use dmtimer.World.Kept.Calls.{apply_all-kept}

module _ {J : List ℕ → World → Type 0} (kept : IsKept J) where
  -- a change of an element that keeps its timer
  alter :
      {held : List ℕ} {w : World} (p : ℕ) (e : Element)
      → tag e ≡ tag (element w p)
      → J held w
      → J held (set_element p e w)
  alter {held} {w} p e same o =
      kept.same o (λ n. refl) refl (λ q. refl)
        (λ q. elim (Bool-cases (q == p)) [
          | inl eq ↦ rw (eq, ==→eq q p eq) same
          | inr ne ↦ rw ne refl
        ])

module _ {J : List ℕ → World → Type 0} (kept : IsKept J) (env : Env)
    (release : env.ndebug ≡ true) where
  remove_timer_element-kept :
      (held : List ℕ) (p : ℕ) (w : World)
      → J held w
      → Returns (J held) (remove_timer_element env.ndebug p w)
  unfolding remove_timer_element
  remove_timer_element-kept held p w o = elim (Bool-cases ((element w p).linked)) [
    | inl e ↦ rw (e, remove_timer_element) (returns (alter kept p _ refl o))
    | inr e ↦ rw (e, release, remove_timer_element) (returns o)
  ]

module _ {J : List ℕ → World → Type 0} (kept : IsKept J) {frame : Frame} {t : ℕ} {held : List ℕ}
    (env : Env) (sound : IsSound frame.limit frame.valid env) (small : frame.limit < 2 ^ 62) where
  call_timer-kept :
      (p : ℕ) (w : World)
      → IsSane frame.valid (element w p)
      → IsReady frame t held w
      → J held w
      → Returns (J held) (call_timer env p w)
  unfolding call_timer set_timer_info del_timer_info
  call_timer-kept p w sane ready o =
      rw (sane.has_sink.1, call_timer)
        (Returns-bind
          (apply_all-kept kept env sound.release _ _ small (sound.calls _ _ ready.bounded)
            (carry-IsReady ready _ refl refl refl refl)
            (kept.same o (λ n. refl) refl (λ q. refl) (λ q. refl)))
          λ w2 o2. returns (kept.same o2 (λ n. refl) refl (λ q. refl) (λ q. refl)))

  -- The element that `Run` holds goes back into the wheel.
  rearm-kept :
      (p : ℕ) (w : World)
      → IsReady frame t held w
      → Held frame held p w
      → t ≡ frame.last + 1
      → t ≤ frame.cur
      → J (p ∷ held) w
      → Returns (J held) (rearm env p w)
  unfolding rearm add_element
  rearm-kept p w ready out now behind o =
      Returns-bind (next_time-later env sound small p w ready out now behind) λ n ok.
        let w1 : World = set_element p (record (element w p) { next_time = n }) w in
        let o1 = alter kept p (record (element w p) { next_time = n }) refl o in
        returns (
          kept.same o1 (λ m. refl) refl (λ q. omega (arith, occurs-add_timer_element q p w1.wheel))
            (λ q. ap tag ((add_timer_element-SameBut p w1.wheel).elements q)))

module _ {J : List ℕ → World → Type 0} (kept : IsKept J) {frame : Frame} {t : ℕ} {held : List ℕ}
    (env : Env) (sound : IsSound frame.limit frame.valid env) (small : frame.limit < 2 ^ 62) where
  -- One element of the work list.
  fire-kept :
      (p : ℕ) (w : World) (events : ℕ)
      → IsReady frame t (p ∷ held) w
      → t ≡ frame.last + 1
      → t ≤ frame.cur
      → J (p ∷ held) w
      → Returns (λ (r : World × ℕ). J held r.0) (fire env p w events)
  unfolding fire
  fire-kept p w events ready now behind o =
      Returns-bind
        (Returns-and (remove_timer_element-IsReady env sound small p w ready)
          (remove_timer_element-kept kept env sound.release _ p w o))
        λ w1 r1. elim (Bool-cases ((element w1 p).erased)) [
          | inl e ↦ rw e (released w1 events r1.0 e r1.1)
          | inr e ↦ rw e (
              let sane = (drop-Held r1.0).sane in
              Returns-bind
                (Returns-and (call_timer-IsReady env sound small p w1 sane r1.0)
                  (call_timer-kept kept env sound small p w1 sane r1.0 r1.1))
                λ w2 r2. elim (Bool-cases ((element w2 p).erased)) [
                  | inl e2 ↦ rw e2 (released w2 (events + 1) r2.0 e2 r2.1)
                  | inr e2 ↦ rw e2 (
                      Returns-bind
                        (rearm-kept kept env sound small p w2 (drop-IsReady r2.0) (drop-Held r2.0)
                          now behind r2.1)
                        λ w3 o3. returns o3)
                ])
        ]
    where
      released :
          (w' : World) (n : ℕ)
          → IsReady frame t (p ∷ held) w'
          → (element w' p).erased ≡ true
          → J (p ∷ held) w'
          → Returns
              (λ (r : World × ℕ). J held r.0)
              (do w3 ← release_element env.ndebug p w'; done (w3, n))
      released w' n ready' dead o' =
          rw sound.release (Returns-bind (kept.released p w' ready' dead o') λ w3 o3. returns o3)

pub fire_all-kept :
    {J : List ℕ → World → Type 0} (kept : IsKept J) {frame : Frame} {t : ℕ} (env : Env)
    → IsSound frame.limit frame.valid env
    → frame.limit < 2 ^ 62
    → t ≡ frame.last + 1
    → t ≤ frame.cur
    → (work : List ℕ) (w : World) (events : ℕ) → IsReady frame t work w
    → J work w
    → Returns (λ (r : World × ℕ). J [] r.0) (fire_all env work w events)
unfolding fire_all
fire_all-kept kept env sound small now behind [] w events ready o = returns o
fire_all-kept kept env sound small now behind (p ∷ work) w events ready o =
    Returns-bind
      (Returns-and (fire-IsReady env sound small p w events ready now behind)
        (fire-kept kept env sound small p w events ready now behind o))
      λ r both. fire_all-kept kept env sound small now behind work r.0 r.1 both.0 both.1
