-- ===== src/World/Release.antt =====
-- `UnInit` returns the elements of the wheel to the pool, each once, and leaves the wheel empty.
use dmtimer.Base.{
  ℕ, zero, suc, ◌+◌, ◌-◌, ◌≤◌, ◌<◌, ◌≡◌, refl, ◌∙◌, inl, inr, Bool, true, false, ◌&&◌, ◌||◌, arith,
  List, [], ◌∷◌, ◌++◌, leb, ltb, ◌==◌, if◌then◌else◌, Bool-cases, count, count_below-empty, Returns,
  returns, Returns-bind, Returns-mono,
}
use dmtimer.RapidPool.{is_live}
use dmtimer.RapidPool.Dynamic.{IsDynamic, release_obj-IsDynamic}
use dmtimer.Wheel.{Level, tv1, tv2, tv3, tv4, tv5, level_no, Slots, set_slot, detach}
use dmtimer.Wheel.Due.{size}
use dmtimer.Wheel.Occurs.{occurs, occurs-detach}
use dmtimer.World.{World, element, max_pool_s, max_pool_i, release_element, remove_timer_element}
use dmtimer.World.Life.{
  release_elements, release_slot_of, release_slots, upper_slots, root_slots, un_init,
}
use dmtimer.World.Ready.{Frame, IsReady}

-- The elements `ps` are not live any more, and the lists of the wheel are as they were.
record Returned (ps : List ℕ) (w w' : World) : Type 0 where
  pools : IsDynamic max_pool_s max_pool_i w'.pool
  lives :
      (q : ℕ)
      → is_live max_pool_s w'.pool q
        ≡ (if ltb 0 (count q ps) then false else is_live max_pool_s w.pool q)
  slots : w'.wheel.slots ≡ w.wheel.slots

remove-Returned :
    (p : ℕ) (w : World)
    → IsDynamic max_pool_s max_pool_i w.pool
    → Returns (Returned [] w) (remove_timer_element true p w)
unfolding remove_timer_element
remove-Returned p w pools = elim (Bool-cases ((element w p).linked)) [
  | inl e ↦
      rw (e, remove_timer_element)
        (returns (record { pools = pools; lives = λ q. refl; slots = refl }))
  | inr e ↦
      rw (e, remove_timer_element)
        (returns (record { pools = pools; lives = λ q. refl; slots = refl }))
]

release-Returned :
    (p : ℕ) (w : World)
    → IsDynamic max_pool_s max_pool_i w.pool
    → is_live max_pool_s w.pool p ≡ true
    → Returns (Returned (p ∷ []) w) (release_element true p w)
unfolding release_element
release-Returned p w pools live =
    let gone = release_obj-IsDynamic true p w.pool pools live in
    rw gone.returns (
      returns
        (record { pools = gone.valid; lives = λ q. gone.unmarked q ∙ ground arith; slots = refl }))

release_elements-Returned :
    (ps : List ℕ) (w : World)
    → IsDynamic max_pool_s max_pool_i w.pool
    → ((q : ℕ) → count q ps ≤ 1)
    → ((q : ℕ) → 0 < count q ps → is_live max_pool_s w.pool q ≡ true)
    → Returns (Returned ps w) (release_elements true ps w)
unfolding release_elements
release_elements-Returned [] w pools once live =
    returns (record { pools = pools; lives = λ q. refl; slots = refl })
release_elements-Returned (p ∷ ps) w pools once live =
    Returns-bind (remove-Returned p w pools) λ w1 a.
      Returns-bind (release-Returned p w1 a.pools (a.lives p ∙ live p (ground arith))) λ w2 b.
        Returns-mono
          (release_elements-Returned ps w2 b.pools (λ q. omega (arith, once q))
            (λ q h. b.lives q ∙ ground (arith, once q, a.lives q, live q)))
          λ w3 c. record {
            pools = c.pools;
            lives = λ q. c.lives q ∙ ground (arith, b.lives q, a.lives q);
            slots = c.slots ∙ b.slots ∙ a.slots;
          }

-- whether a slot is in a list of slots
abbrev listed : Level → ℕ → List (Level × ℕ) → Bool
listed l i [] = false
listed l i (s ∷ ss) = (level_no l == level_no s.0 && (i == s.1)) || listed l i ss

-- the slots are slots of the wheel
abbrev AreSlots : List (Level × ℕ) → Type 0
AreSlots ss = (l : Level) (i : ℕ) → listed l i ss ≡ true → i < size l

-- No element hangs in the wheel twice, and all that do are live.
record IsStable (w : World) : Type 0 where
  pools : IsDynamic max_pool_s max_pool_i w.pool
  once : (q : ℕ) → occurs q w.wheel.slots ≤ 1
  live : (q : ℕ) → 0 < occurs q w.wheel.slots → is_live max_pool_s w.pool q ≡ true

-- The slots `ss` are empty, and the elements that have left the wheel are not live any more.
record Emptied (ss : List (Level × ℕ)) (w w' : World) : Type 0 where
  stable : IsStable w'
  fewer : (q : ℕ) → occurs q w'.wheel.slots ≤ occurs q w.wheel.slots
  lives :
      (q : ℕ)
      → is_live max_pool_s w'.pool q ≡ (
          if ltb (occurs q w'.wheel.slots) (occurs q w.wheel.slots)
          then false
          else is_live max_pool_s w.pool q)
  slots :
      (l : Level) (i : ℕ) → w'.wheel.slots l i ≡ (if listed l i ss then [] else w.wheel.slots l i)

slot-Emptied :
    (l : Level) (i : ℕ) (w : World)
    → i < size l
    → IsStable w
    → Returns (Emptied ((l, i) ∷ []) w) (release_slot_of true (l, i) w)
unfolding release_slot_of detach
slot-Emptied l i w inside s =
    let entries : (q : ℕ)
        → occurs q (set_slot w.wheel.slots l i []) + count q (w.wheel.slots l i)
          ≡ occurs q w.wheel.slots =
      λ q. occurs-detach q l i w.wheel inside in
    Returns-mono
      (release_elements-Returned (w.wheel.slots l i) _ s.pools
        (λ q. omega (arith, s.once q, entries q)) (λ q h. s.live q (omega (arith, entries q))))
      λ w' r. record {
        stable = record {
          pools = r.pools;
          once = λ q. rw r.slots (omega (arith, s.once q, entries q));
          live = λ q h. r.lives q ∙ ground (arith, s.once q, entries q, s.live q, rw r.slots at h);
        };
        fewer = λ q. rw r.slots (omega (arith, entries q));
        lives = λ q. rw r.slots (r.lives q ∙ ground (arith, entries q));
        slots = λ l' i'. rw r.slots (ground arith);
      }

slots-Emptied :
    (ss : List (Level × ℕ)) (w : World)
    → AreSlots ss
    → IsStable w
    → Returns (Emptied ss w) (release_slots true ss w)
unfolding release_slots
slots-Emptied [] w are s = returns (record {
  stable = s;
  fewer = λ q. omega arith;
  lives = λ q. ground arith;
  slots = λ l i. refl;
})
slots-Emptied ((l, i) ∷ ss) w are s =
    Returns-bind (slot-Emptied l i w (are l i (ground arith)) s) λ w1 a.
      Returns-mono (slots-Emptied ss w1 (λ l' i' h. are l' i' (ground arith)) a.stable) λ w2 b.
        record {
          stable = b.stable;
          fewer = λ q. omega (arith, a.fewer q, b.fewer q);
          lives = λ q. b.lives q ∙ ground (arith, a.lives q, a.fewer q, b.fewer q);
          slots = λ l' i'. b.slots l' i' ∙ ground (arith, a.slots l' i');
        }

level_no-le-5 : (l : Level) → (1 ≤ level_no l) × (level_no l ≤ 5)
level_no-le-5 tv1 = (omega arith, omega arith)
level_no-le-5 tv2 = (omega arith, omega arith)
level_no-le-5 tv3 = (omega arith, omega arith)
level_no-le-5 tv4 = (omega arith, omega arith)
level_no-le-5 tv5 = (omega arith, omega arith)

listed-upper_slots :
    (l : Level) (i n : ℕ)
    → n ≤ 64
    → listed l i (upper_slots n) ≡ (leb 2 (level_no l) && (leb (64 - n) i && ltb i 64))
unfolding upper_slots
listed-upper_slots l i zero h = ground arith
listed-upper_slots l i (suc n) h = ground (arith, listed-upper_slots l i n, level_no-le-5 l)

listed-root_slots :
    (l : Level) (i n : ℕ)
    → n ≤ 256
    → listed l i (root_slots n) ≡ ((level_no l == 1) && (leb (256 - n) i && ltb i 256))
unfolding root_slots
listed-root_slots l i zero h = ground arith
listed-root_slots l i (suc n) h = ground (arith, listed-root_slots l i n)

listed-append :
    (l : Level) (i : ℕ) (ss rr : List (Level × ℕ))
    → listed l i (ss ++ rr) ≡ (listed l i ss || listed l i rr)
listed-append l i [] rr = refl
listed-append l i (s ∷ ss) rr = ground (arith, listed-append l i ss rr)

abbrev every_slot : List (Level × ℕ)
every_slot = upper_slots 64 ++ root_slots 256

listed-every_slot : (l : Level) (i : ℕ) → listed l i every_slot ≡ ltb i (size l)
listed-every_slot l i = listed-append l i (upper_slots 64) (root_slots 256) ∙ by_level l
  where
    by_level :
        (l : Level) → (listed l i (upper_slots 64) || listed l i (root_slots 256)) ≡ ltb i (size l)
    by_level l = ground (arith, listed-upper_slots l i 64, listed-root_slots l i 256)

occurs-empty :
    (p : ℕ) (tv : Slots) → ((l : Level) (i : ℕ) → i < size l → tv l i ≡ []) → occurs p tv ≡ 0
unfolding occurs
occurs-empty p tv empty = omega (
  arith,
  count_below-empty p 256 (tv tv1) (empty tv1),
  count_below-empty p 64 (tv tv2) (empty tv2),
  count_below-empty p 64 (tv tv3) (empty tv3),
  count_below-empty p 64 (tv tv4) (empty tv4),
  count_below-empty p 64 (tv tv5) (empty tv5),
)

-- What `UnInit` leaves of the state `w`.
pub record IsEmptied (w w' : World) : Type 0 where
  pub pools : IsDynamic max_pool_s max_pool_i w'.pool
  pub slots : (l : Level) (i : ℕ) → i < size l → w'.wheel.slots l i ≡ []
  pub lives :
      (q : ℕ)
      → is_live max_pool_s w'.pool q
        ≡ (if ltb 0 (occurs q w.wheel.slots) then false else is_live max_pool_s w.pool q)

-- From a ready state, with assertions compiled out, `UnInit` returns and leaves every slot of the
-- five vectors empty. Exactly the elements that hung in the wheel have gone back to the pool, each
-- of them once; every other element is live or not as before, and the pools are valid.
pub un_init-IsEmptied :
    {frame : Frame} {t : ℕ} {w : World}
    → IsReady frame t [] w
    → Returns (IsEmptied w) (un_init true w)
unfolding un_init
un_init-IsEmptied {w} ready =
    Returns-mono
      (slots-Emptied every_slot w (λ l i h. ground (arith, listed-every_slot l i, h))
        (record {
          pools = ready.pools;
          once = λ q. omega (arith, ready.once q);
          live = λ q h. ready.live q (omega arith);
        }))
      λ w' e.
        let empty : (l : Level) (i : ℕ) → i < size l → w'.wheel.slots l i ≡ [] =
          λ l i h. e.slots l i ∙ ground (arith, listed-every_slot l i) in
        record {
          pools = e.stable.pools;
          slots = empty;
          lives = λ q. e.lives q ∙ ground (arith, occurs-empty q w'.wheel.slots empty);
        }
