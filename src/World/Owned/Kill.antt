-- ===== src/World/Owned/Kill.antt =====
-- The maps of the nodes under `KillTimer`.
use mathlib.Core.Bool.{true≢false}
use mathlib.Core.Option.{none-ne-some, some-injective}
use dmtimer.Base.{
  same_if, ℕ, ◌<◌, ◌≡◌, refl, ap, sym, ◌∙◌, inl, inr, true, false, none, some, List, [], ◌∷◌, ◌==◌,
  if◌then◌else◌, Bool-cases, Option-cases, ==→eq, ==_self,
}
use dmtimer.Sink.{kill}
use dmtimer.World.{World, element}
use dmtimer.World.Map.{
  TimerElementMap, find, find-nil, erase, has, has-find, find-has, IsSorted, find-erase,
  erase-IsSorted,
}
use dmtimer.World.Node.{kill_element, kill_elements, kill_timer, kill_timers}
use dmtimer.World.Ready.{places}
use dmtimer.World.Kept.{tag}
use dmtimer.World.Owned.{IsOwned, Owns, same_timer, other_id, node_unique, id_unique}

kept : {p q : ℕ} → (q == p) ≡ false → ¬ (q ≡ p)
kept {p} {q} ne e = true≢false (sym (==_self p) ∙ (rw e at ne))

-- `KillTimer( uint64_t )`: the timer is no longer in the map.
pub kill_timer-IsOwned :
    (held : List ℕ) (node id : ℕ) (w : World) → IsOwned held w → IsOwned held (kill_timer node id w)
unfolding kill_timer kill_element kill
kill_timer-IsOwned held node id w o = elim (Option-cases (find id (w.nodes node))) [
  | inl e ↦ rw (e, kill_timer) o
  | inr (p, e) ↦
      rw (e, kill_timer) (record { sorted = sorted; holds = holds p e; listed = listed p e })
]
  where
    maps : ℕ → TimerElementMap
    maps n = if n == node then erase id (w.nodes node) else w.nodes n

    sorted : (n : ℕ) → IsSorted (maps n)
    sorted n = elim (Bool-cases (n == node)) [
      | inl e ↦ rw e (erase-IsSorted id _ (o.sorted node))
      | inr ne ↦ rw ne (o.sorted n)
    ]

    gone : find id (maps node) ≡ none
    gone = rw (==_self node, find-erase id id (w.nodes node) (o.sorted node), ==_self id) refl

    elsewhere : (n i : ℕ) → ¬ ((n ≡ node) × (i ≡ id)) → find i (maps n) ≡ find i (w.nodes n)
    elsewhere n i other = elim (Bool-cases (n == node)) [
      | inr ne ↦ rw ne refl
      | inl e ↦
          let en = ==→eq n node e in
          let ni : (id == i) ≡ false = other_id n i node id other en in
          rw (e, find-erase id i (w.nodes node) (o.sorted node), ni)
            (ap (λ m. find i (w.nodes m)) (sym en))
    ]

    holds :
        (p : ℕ)
        → find id (w.nodes node) ≡ some p
        → (n i q : ℕ) → find i (maps n) ≡ some q
        → (0 < places q held w)
          × (tag (if q == p then kill (element w p) else element w q) ≡ (some n, i, false))
    holds p f n i q e = elim (same_timer n i node id) [
      | inl (en, ei) ↦ absurd (none-ne-some _ (sym gone ∙ (rw (en, ei) at e)))
      | inr other ↦
          let before = o.holds n i q (sym (elsewhere n i other) ∙ e) in
          let killed = (o.holds node id p f).1 in
          elim (Bool-cases (q == p)) [
            | inr ne ↦ (before.0, rw ne before.1)
            | inl eq ↦
                let own : tag (element w q) ≡ (some node, id, false) = rw (==→eq q p eq) killed in
                absurd
                  (other (node_unique n i node id before.1 own, id_unique n i node id before.1 own))
          ]
    ]

    listed :
        (p : ℕ)
        → find id (w.nodes node) ≡ some p
        → (n i q : ℕ)
        → (0 < places q held w)
          × (tag (if q == p then kill (element w p) else element w q) ≡ (some n, i, false))
        → find i (maps n) ≡ some q
    listed p f n i q h = elim (Bool-cases (q == p)) [
      | inl eq ↦ absurd (true≢false (ap (λ t. t.2) (rw eq at (h.1))))
      | inr ne ↦
          let found = o.listed n i q (h.0, rw ne at (h.1)) in
          elsewhere n i (λ c. kept ne (some-injective _ _ (sym (rw (c.0, c.1) at found) ∙ f)))
          ∙ found
    ]

-- The loop of `KillTimer()` kills exactly these elements.
tag-kill_elements :
    (m : TimerElementMap) (w : World) (q : ℕ)
    → element (kill_elements m w) q ≡ (if has q m then kill (element w q) else element w q)
unfolding kill_elements kill_element kill has
tag-kill_elements [] w q = refl
tag-kill_elements ((i, p) ∷ m) w q = elim (Bool-cases (q == p)) [
  | inr ne ↦ rw (tag-kill_elements m (kill_element p w) q, ne) refl
  | inl e ↦ rw (tag-kill_elements m (kill_element p w) q, e, ==→eq q p e) (same_if (has p m) _)
]

nodes-kill_elements : (m : TimerElementMap) (w : World) → (kill_elements m w).nodes ≡ w.nodes
unfolding kill_elements kill_element
nodes-kill_elements [] w = refl
nodes-kill_elements ((i, p) ∷ m) w = nodes-kill_elements m (kill_element p w)

pub slots-kill_elements :
    (m : TimerElementMap) (w : World) → (kill_elements m w).wheel.slots ≡ w.wheel.slots
unfolding kill_elements kill_element
slots-kill_elements [] w = refl
slots-kill_elements ((i, p) ∷ m) w = slots-kill_elements m (kill_element p w)

-- `KillTimer()`: the node has no timers.
pub kill_timers-IsOwned :
    (held : List ℕ) (node : ℕ) (w : World) → IsOwned held w → IsOwned held (kill_timers node w)
unfolding kill_timers kill
kill_timers-IsOwned held node w o = record { sorted = sorted; holds = holds; listed = listed }
  where
    m : TimerElementMap
    m = w.nodes node

    after : World
    after = kill_elements m w

    maps : ℕ → TimerElementMap
    maps n = if n == node then [] else after.nodes n

    sorted : (n : ℕ) → IsSorted (maps n)
    sorted n = elim (Bool-cases (n == node)) [
      | inl e ↦ rw e tt
      | inr ne ↦ rw (ne, nodes-kill_elements m w) (o.sorted n)
    ]

    -- an element of the map is a timer of the node
    mine : (n i q : ℕ) → Owns held w n i q → has q m ≡ true → n ≡ node
    mine n i q own h =
        let (j, f) = find-has q m (o.sorted node) h in
        node_unique n i node j own.1 (o.holds node j q f).1

    holds : (n i q : ℕ) → find i (maps n) ≡ some q → Owns held after n i q
    holds n i q e = elim (Bool-cases (n == node)) [
      | inl eq ↦ absurd (find-nil i q (rw eq at e))
      | inr ne ↦
          let own = o.holds n i q (rw (ne, nodes-kill_elements m w) at e) in
          elim (Bool-cases (has q m)) [
            | inl h ↦ absurd (kept ne (mine n i q own h))
            | inr h ↦ (rw (slots-kill_elements m w) own.0, rw (tag-kill_elements m w q, h) own.1)
          ]
    ]

    listed : (n i q : ℕ) → Owns held after n i q → find i (maps n) ≡ some q
    listed n i q h = elim (Bool-cases (has q m)) [
      | inl dead ↦ absurd (true≢false (ap (λ t. t.2) (rw (tag-kill_elements m w q, dead) at (h.1))))
      | inr alive ↦
          let found =
            o.listed n i q (
              rw (slots-kill_elements m w) at (h.0),
              rw (tag-kill_elements m w q, alive) at (h.1),
            ) in
          elim (Bool-cases (n == node)) [
            | inr ne ↦ rw (ne, nodes-kill_elements m w) found
            | inl e ↦
                let there = has-find i q m (rw (==→eq n node e) at found) in
                absurd (true≢false (sym there ∙ alive))
          ]
    ]
