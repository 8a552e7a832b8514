-- ===== src/World/Ready/Changes.antt =====
-- The invariant under the operations of the module that the node's methods and `Run` are made of: the
-- clock, the maps, the pool, killing and installing an element.
use mathlib.Core.Bool.{false≢true}
use native.Mathlib.Nat.{le_trans}
use dmtimer.Base.{
  ℕ, ◌≤◌, ◌<◌, ◌≡◌, refl, sym, ◌∙◌, Bool, true, Option, none, some, List, ◌==◌, if◌then◌else◌,
  arith, Option-cases, ==_self, inl, inr, Returns, returns,
}
use dmtimer.Sink.{kill, reset}
use dmtimer.RapidPool.{is_live}
use dmtimer.RapidPool.Dynamic.{fetch_obj-IsDynamic, release_obj-IsDynamic}
use dmtimer.World.{
  World, element, max_pool_s, get_boot_time, new_element, fetch_element, release_element, install,
}
use dmtimer.World.Map.{find}
use dmtimer.World.Node.{kill_element}
use dmtimer.World.Ready.{
  Frame, IsReady, places, place-ne, set_element-IsReady, alter_element-IsReady,
}

-- The states read the same clock.
pub record SameClock (w w' : World) : Type 0 where
  pub tick_count : w'.tick_count ≡ w.tick_count
  pub total : w'.total_tick_count ≡ w.total_tick_count
  pub speed : w'.speed ≡ w.speed

-- A reading of the clock in `w` neither goes back nor passes `limit`.
pub record IsCalm (limit now : ℕ) (w : World) : Type 0 where
  pub onward : w.total_tick_count ≤ (get_boot_time now w).0
  pub within : (get_boot_time now w).0 ≤ limit

pub IsCalm-same :
    {limit now : ℕ} {w w' : World} → SameClock w w' → IsCalm limit now w → IsCalm limit now w'
unfolding get_boot_time
IsCalm-same s calm = record {
  onward = rw (s.total, s.tick_count, s.speed) calm.onward;
  within = rw (s.total, s.tick_count, s.speed) calm.within;
}

if_true : (b : Bool) {c : Bool} → c ≡ true → (if b then true else c) ≡ true
if_true b e = ground arith

nowhere : {n : ℕ} → ¬ (0 < n) → n ≡ 0
nowhere h = omega arith

module _ {frame : Frame} {t : ℕ} {held : List ℕ} {w : World} (ready : IsReady frame t held w) where
  -- a change of what the invariant does not speak of
  pub carry-IsReady :
      (w' : World)
      → w'.wheel ≡ w.wheel
      → w'.pool ≡ w.pool
      → w'.total_tick_count ≡ w.total_tick_count
      → w'.cur_time ≡ w.cur_time
      → IsReady frame t held w'
  carry-IsReady w' ew ep et ec = record {
    pools = rw ep ready.pools;
    due = rw ew ready.due;
    once = λ q. rw ew (ready.once q);
    live = λ q h. rw ep (ready.live q (rw ew at h));
    sane = λ q h. rw ew (ready.sane q (rw ew at h));
    tick = rw ew ready.tick;
    near = rw ew ready.near;
    clock = rw et ready.clock;
    passed = rw et ready.passed;
    bounded = rw et ready.bounded;
    at_last = rw ew ready.at_last;
    at_cur = rw ec ready.at_cur;
    held_at = λ q h. rw ew (ready.held_at q h);
  }

  -- a reading of the clock that neither goes back nor passes the limit
  pub get_boot_time-IsReady :
      (now : ℕ) → IsCalm frame.limit now w → IsReady frame t held (get_boot_time now w).1
  unfolding get_boot_time
  get_boot_time-IsReady now calm = record {
    pools = ready.pools;
    due = ready.due;
    once = ready.once;
    live = ready.live;
    sane = ready.sane;
    tick = ready.tick;
    near = ready.near;
    clock = le_trans ready.clock calm.onward;
    passed = le_trans ready.passed calm.onward;
    bounded = calm.within;
    at_last = ready.at_last;
    at_cur = ready.at_cur;
    held_at = ready.held_at;
  }

  pub kill_element-IsReady : (p : ℕ) → IsReady frame t held (kill_element p w)
  unfolding kill_element kill
  kill_element-IsReady p =
      alter_element-IsReady ready p (kill (element w p)) refl refl refl refl refl

  -- `FetchElement` with assertions compiled out: null, or a constructed element that is in no place.
  abbrev pub Granted : Option ℕ × World → Type 0
  Granted (none, w') = IsReady frame t held w'
  Granted (some p, w') =
      IsReady frame t held w'
      × (places p held w' ≡ 0)
      × (is_live max_pool_s w'.pool p ≡ true)
      × (element w' p ≡ new_element)
      × SameClock w w'

  pub fetch_element-IsReady : Returns Granted (fetch_element true w)
  unfolding fetch_element
  fetch_element-IsReady = elim (fetch_obj-IsDynamic true w.pool ready.pools) [
    | inl (none_left, e) ↦ rw e (returns (carry-IsReady _ refl refl refl refl))
    | inr got ↦
        let p = got.object in
        let w1 : World = record w { pool = got.pools } in
        let free : places p held w ≡ 0 =
          nowhere (λ h. false≢true (sym got.was_free ∙ ready.live p h)) in
        let ready1 : IsReady frame t held w1 = record {
          pools = got.valid;
          due = ready.due;
          once = ready.once;
          live = λ q h. rw got.marked (if_true (q == p) (ready.live q h));
          sane = ready.sane;
          tick = ready.tick;
          near = ready.near;
          clock = ready.clock;
          passed = ready.passed;
          bounded = ready.bounded;
          at_last = ready.at_last;
          at_cur = ready.at_cur;
          held_at = ready.held_at;
        } in
        rw got.returns (
          returns (
            set_element-IsReady ready1 p new_element free,
            free,
            rw (got.marked, ==_self p) refl,
            rw (==_self p) refl,
            record { tick_count = refl; total = refl; speed = refl },
          ))
  ]

  -- `ReleaseElement` of a live element that is in no place
  pub release_element-IsReady :
      (p : ℕ)
      → places p held w ≡ 0
      → is_live max_pool_s w.pool p ≡ true
      → Returns (IsReady frame t held) (release_element true p w)
  unfolding release_element
  release_element-IsReady p free live =
      let gone = release_obj-IsDynamic true p w.pool ready.pools live in
      let ready1 = set_element-IsReady ready p (reset (element w p)) free in
      rw gone.returns (
        returns (record {
          pools = gone.valid;
          due = ready1.due;
          once = ready1.once;
          live = λ q h. rw (gone.unmarked, place-ne ready p q free h) (ready.live q h);
          sane = ready1.sane;
          tick = ready1.tick;
          near = ready1.near;
          clock = ready1.clock;
          passed = ready1.passed;
          bounded = ready1.bounded;
          at_last = ready1.at_last;
          at_cur = ready1.at_cur;
          held_at = ready1.held_at;
        }))

-- `install` kills what the map held and changes the map.
pub install-IsReady :
    {frame : Frame} {t : ℕ} {held : List ℕ} {w : World} (node id p : ℕ)
    → IsReady frame t held w
    → IsReady frame t held (install node id p w)
unfolding install
install-IsReady {w} node id p ready = elim (Option-cases (find id (w.nodes node))) [
  | inl e ↦ rw (e, install) (carry-IsReady ready _ refl refl refl refl)
  | inr (old, e) ↦
      rw (e, install)
        (carry-IsReady
          (alter_element-IsReady ready old (kill (element w old)) (unfold kill in refl)
            (unfold kill in refl) (unfold kill in refl) (unfold kill in refl) (unfold kill in refl))
          _ refl refl refl refl)
]
