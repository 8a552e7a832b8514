-- ===== src/World/Owned.antt =====
-- The maps of the nodes and the elements of the wheel agree: a map holds an element under an id exactly if
-- the element is in the wheel or in the work list of `Run`, is not killed, and names the node and the id.
pub mod Kill
pub mod Requests
pub mod Life
use mathlib.Core.Bool.{false≢true, true≢false}
use mathlib.Core.Option.{some-injective, none-ne-some}
use dmtimer.Base.{
  ℕ, ◌+◌, ◌≤◌, ◌<◌, ◌≡◌, ◌≢◌, refl, ap, sym, ◌∙◌, inl, inr, ◌⊎◌, Bool, true, false, Option, none,
  some, List, [], ◌∷◌, ◌==◌, if◌then◌else◌, update, arith, Bool-cases, Option-cases, ==→eq, ==_self,
}
use dmtimer.Sink.{Element, kill}
use dmtimer.Wheel.Occurs.{occurs-add_timer_element}
use dmtimer.Wheel.Kept.{add_timer_element-SameBut}
use dmtimer.World.{World, element, set_element, add_element, install}
use dmtimer.World.Map.{
  TimerElementMap, find, insert, erase, IsSorted, find-insert, find-erase, insert-IsSorted,
  erase-IsSorted,
}
use dmtimer.World.Install.{nodes-install, slots-install, element-install_other, element-install_old}
use dmtimer.World.Node.{kill_timer, kill_element}
use dmtimer.World.Ready.{places}
use dmtimer.World.Kept.{tag}

-- The element `p` is the timer `i` of the node `n`.
abbrev pub Owns : List ℕ → World → ℕ → ℕ → ℕ → Type 0
Owns held w n i p = (0 < places p held w) × (tag (element w p) ≡ (some n, i, false))

pub record IsOwned (held : List ℕ) (w : World) : Type 0 where
  pub sorted : (n : ℕ) → IsSorted (w.nodes n)
  pub holds : (n i p : ℕ) → find i (w.nodes n) ≡ some p → Owns held w n i p
  pub listed : (n i p : ℕ) → Owns held w n i p → find i (w.nodes n) ≡ some p

pub node_unique :
    {o : Option ℕ × ℕ × Bool} (n i n' i' : ℕ)
    → o ≡ (some n, i, false)
    → o ≡ (some n', i', false)
    → n ≡ n'
node_unique n i n' i' e e' = some-injective _ _ (ap (λ t. t.0) (sym e ∙ e'))

pub id_unique :
    {o : Option ℕ × ℕ × Bool} (n i n' i' : ℕ)
    → o ≡ (some n, i, false)
    → o ≡ (some n', i', false)
    → i ≡ i'
id_unique n i n' i' e e' = ap (λ t. t.1) (sym e ∙ e')

-- Another state and other held elements, with the same maps and the same timers.
pub shift-IsOwned :
    {held held' : List ℕ} {w w' : World}
    → IsOwned held w
    → ((n : ℕ) → w'.nodes n ≡ w.nodes n)
    → ((n i p : ℕ) → Owns held w n i p → Owns held' w' n i p)
    → ((n i p : ℕ) → Owns held' w' n i p → Owns held w n i p)
    → IsOwned held' w'
shift-IsOwned o same onward back = record {
  sorted = λ n. rw (same n) (o.sorted n);
  holds = λ n i p e. onward n i p (o.holds n i p (rw (same n) at e));
  listed = λ n i p h. rw (same n) (o.listed n i p (back n i p h));
}

pub same-IsOwned :
    {held held' : List ℕ} {w w' : World}
    → IsOwned held w
    → ((n : ℕ) → w'.nodes n ≡ w.nodes n)
    → ((q : ℕ) → places q held' w' ≡ places q held w)
    → ((q : ℕ) → 0 < places q held w → tag (element w' q) ≡ tag (element w q))
    → IsOwned held' w'
same-IsOwned o same at tags =
    shift-IsOwned o same (λ n i p h. (rw (at p) (h.0), tags p h.0 ∙ h.1))
      (λ n i p h. let h' = rw (at p) at (h.0) in (h', sym (tags p h') ∙ h.1))

-- whether two timers are the same
pub same_timer : (n i n' i' : ℕ) → ((n ≡ n') × (i ≡ i')) ⊎ (¬ ((n ≡ n') × (i ≡ i')))
same_timer n i n' i' = ground arith

pub other_id : (n i n' i' : ℕ) → ¬ ((n ≡ n') × (i ≡ i')) → n ≡ n' → (i' == i) ≡ false
other_id n i n' i' other en = elim (Bool-cases (i' == i)) [
  | inl e ↦ absurd (other (en, sym (==→eq i' i e)))
  | inr ne ↦ ne
]

-- two elements, of which one is in a place and one is not
apart :
    (held : List ℕ) (w : World) (p q : ℕ)
    → places p held w ≡ 0
    → 0 < places q held w
    → (q == p) ≡ false
apart held w p q free h = elim (Bool-cases (q == p)) [
  | inr ne ↦ ne
  | inl e ↦ absurd (no_place (rw (==→eq q p e) at h))
]
  where
    no_place : ¬ (0 < places p held w)
    no_place c = omega arith

pub set_element-IsOwned :
    {held : List ℕ} {w : World} (p : ℕ) (e : Element)
    → places p held w ≡ 0
    → IsOwned held w
    → IsOwned held (set_element p e w)
set_element-IsOwned {held} {w} p e free o =
    same-IsOwned o (λ n. refl) (λ q. refl) (λ q h. rw (apart held w p q free h) refl)

-- a change of an element that keeps its timer
pub alter_element-IsOwned :
    {held : List ℕ} {w : World} (p : ℕ) (e : Element)
    → tag e ≡ tag (element w p)
    → IsOwned held w
    → IsOwned held (set_element p e w)
alter_element-IsOwned {held} {w} p e same o =
    same-IsOwned o (λ n. refl) (λ q. refl)
      (λ q h. elim (Bool-cases (q == p)) [
        | inl eq ↦ rw (eq, ==→eq q p eq) same
        | inr ne ↦ rw ne refl
      ])

-- The end of a request: the element goes into the wheel and into the map of its node.
module _ {held : List ℕ} {w : World} (o : IsOwned held w) (node id p : ℕ)
    (free : places p held w ≡ 0) (own : tag (element w p) ≡ (some node, id, false)) where
  abbrev hung : World
  hung = add_element p w

  abbrev after : World
  after = install node id p hung

  tag-hung : (q : ℕ) → tag (element hung q) ≡ tag (element w q)
  unfolding add_element
  tag-hung q = ap tag ((add_timer_element-SameBut p w.wheel).elements q)

  places-after : (q : ℕ) → places q held after ≡ places q held w + (if q == p then 1 else 0)
  unfolding add_element
  places-after q =
      rw (slots-install node id p hung) (omega (arith, occurs-add_timer_element q p w.wheel))

  -- an element but the one that had the id
  tag-after : (q : ℕ) → find id (w.nodes node) ≢ some q → tag (element after q) ≡ tag (element w q)
  unfolding add_element
  tag-after q other = ap tag (element-install_other node id p q hung other) ∙ tag-hung q

  find-after : find id (after.nodes node) ≡ some p
  find-after =
      rw
        (
          nodes-install node id p hung node,
          ==_self node,
          find-insert id id p (hung.nodes node),
          ==_self id,
        )
        refl

  find-elsewhere :
      (n i : ℕ) → ¬ ((n ≡ node) × (i ≡ id)) → find i (after.nodes n) ≡ find i (w.nodes n)
  unfolding add_element
  find-elsewhere n i other = rw (nodes-install node id p hung n) (elim (Bool-cases (n == node)) [
    | inr ne ↦ rw ne refl
    | inl e ↦
        let ni : (id == i) ≡ false = other_id n i node id other (==→eq n node e) in
        rw (e, find-insert id i p (hung.nodes node), ni)
          (ap (λ m. find i (w.nodes m)) (sym (==→eq n node e)))
  ])

  own-after : Owns held after node id p
  own-after = (
    rw (places-after p, ==_self p) (omega arith),
    tag-after p (λ f. free_place ((o.holds node id p f).0)) ∙ own,
  )
    where
      free_place : ¬ (0 < places p held w)
      free_place h = omega arith

  pub place-IsOwned : IsOwned held after
  unfolding add_element
  place-IsOwned = record { sorted = sorted; holds = holds; listed = listed }
    where
      sorted : (n : ℕ) → IsSorted (after.nodes n)
      sorted n = rw (nodes-install node id p hung n) (elim (Bool-cases (n == node)) [
        | inl e ↦ rw e (insert-IsSorted id p _ (o.sorted node))
        | inr ne ↦ rw ne (o.sorted n)
      ])

      holds : (n i q : ℕ) → find i (after.nodes n) ≡ some q → Owns held after n i q
      holds n i q e = elim (same_timer n i node id) [
        | inl (en, ei) ↦
            let eq : p ≡ q = some-injective _ _ (sym find-after ∙ (rw (en, ei) at e)) in
            rw (en, ei, sym eq) own-after
        | inr other ↦
            let before = o.holds n i q (sym (find-elsewhere n i other) ∙ e) in
            (
              omega (arith, places-after q, before.0),
              tag-after q (λ f.
                    let old = (o.holds node id q f).1 in
                    other
                      (node_unique n i node id before.1 old, id_unique n i node id before.1 old))
                  ∙ before.1,
            )
      ]

      listed : (n i q : ℕ) → Owns held after n i q → find i (after.nodes n) ≡ some q
      listed n i q h =
          let new : find id (w.nodes node) ≢ some q =
            λ f. true≢false (sym (element-install_old node id p q hung f) ∙ ap (λ t. t.2) (h.1)) in
          elim (Bool-cases (q == p)) [
            | inl e ↦
                let eq = ==→eq q p e in
                let mine : tag (element after q) ≡ (some node, id, false) = rw eq own-after.1 in
                rw (node_unique n i node id h.1 mine, id_unique n i node id h.1 mine, eq) find-after
            | inr ne ↦
                let there : 0 < places q held w = ground (arith, places-after q, ne, h.0) in
                let found = o.listed n i q (there, sym (tag-after q new) ∙ h.1) in
                find-elsewhere n i (λ c. new (rw (c.0, c.1) at found)) ∙ found
          ]
