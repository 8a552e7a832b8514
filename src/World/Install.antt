-- ===== src/World/Install.antt =====
-- What the end of the requests (`install`) does: the node's map takes the new element, and the element that
-- it held under this id is marked.
use dmtimer.Base.{
  ℕ, ◌≡◌, ◌≢◌, refl, ap, sym, ◌∙◌, inl, inr, true, false, some, ◌==◌, if◌then◌else◌, Bool-cases,
  Option-cases, ==→eq, ==_self,
}
use dmtimer.Sink.{kill}
use dmtimer.World.{World, element, install}
use dmtimer.World.Map.{find, insert}

pub nodes-install :
    (node id p : ℕ) (w : World) (n : ℕ)
    → (install node id p w).nodes n ≡ (if n == node then insert id p (w.nodes node) else w.nodes n)
unfolding install
nodes-install node id p w n = elim (Option-cases (find id (w.nodes node))) [
  | inl e ↦ rw (e, install) refl
  | inr (old, e) ↦ rw (e, install) refl
]

pub cur_time-install : (node id p : ℕ) (w : World) → (install node id p w).cur_time ≡ w.cur_time
unfolding install
cur_time-install node id p w = elim (Option-cases (find id (w.nodes node))) [
  | inl e ↦ rw (e, install) refl
  | inr (old, e) ↦ rw (e, install) refl
]

pub slots-install : (node id p : ℕ) (w : World) → (install node id p w).wheel.slots ≡ w.wheel.slots
unfolding install
slots-install node id p w = elim (Option-cases (find id (w.nodes node))) [
  | inl e ↦ rw (e, install) refl
  | inr (old, e) ↦ rw (e, install) refl
]

pub element-install_other :
    (node id p q : ℕ) (w : World)
    → find id (w.nodes node) ≢ some q
    → element (install node id p w) q ≡ element w q
unfolding install
element-install_other node id p q w new = elim (Option-cases (find id (w.nodes node))) [
  | inl e ↦ rw (e, install) refl
  | inr (old, e) ↦ let ne : (q == old) ≡ false = other old e in rw (e, ne, install) refl
]
  where
    other : (old : ℕ) → find id (w.nodes node) ≡ some old → (q == old) ≡ false
    other old e = elim (Bool-cases (q == old)) [
      | inl same ↦ absurd (new (e ∙ ap some (sym (==→eq q old same))))
      | inr ne ↦ ne
    ]

pub element-install_old :
    (node id p old : ℕ) (w : World)
    → find id (w.nodes node) ≡ some old
    → (element (install node id p w) old).erased ≡ true
unfolding install kill
element-install_old node id p old w e = rw (e, ==_self old, install) refl

pub pool-install : (node id p : ℕ) (w : World) → (install node id p w).pool ≡ w.pool
unfolding install
pool-install node id p w = elim (Option-cases (find id (w.nodes node))) [
  | inl e ↦ rw (e, install) refl
  | inr (old, e) ↦ rw (e, install) refl
]
