-- ===== src/Wheel/Kept.antt =====
-- What the wheel's operations leave alone: the last time, and all of an element but its link.
use dmtimer.Base.{ℕ, ◌≡◌, refl, ap, ◌∙◌, false, List, [], ◌∷◌, arith, ◌==◌, Bool-cases, inl, inr}
use dmtimer.Sink.{Element, dm_index, tvr_mask}
use dmtimer.Wheel.{
  Level, Wheel, add_timer_element, add_timer_elements, detach, cascade, cascade_from, upper_levels,
  cascades,
}

-- the element apart from `m_stEntry`
abbrev pub bare : Element → Element
bare e = record e { linked = false }

-- `SameBut w w'`: the wheels have the same last time, and their elements differ in the link at most.
pub record SameBut (w w' : Wheel) : Type 0 where
  pub last_time : w'.last_time ≡ w.last_time
  pub elements : (q : ℕ) → bare (w'.heap q) ≡ bare (w.heap q)

pub SameBut-refl : (w : Wheel) → SameBut w w
SameBut-refl w = record { last_time = refl; elements = λ q. refl }

pub SameBut-trans : {u v w : Wheel} → SameBut u v → SameBut v w → SameBut u w
SameBut-trans a b = record {
  last_time = b.last_time ∙ a.last_time;
  elements = λ q. b.elements q ∙ a.elements q;
}

pub expiry-SameBut :
    {w w' : Wheel} (q : ℕ) → SameBut w w' → (w'.heap q).next_time ≡ (w.heap q).next_time
expiry-SameBut q s = ap (λ e. e.next_time) (s.elements q)

pub add_timer_element-SameBut : (p : ℕ) (w : Wheel) → SameBut w (add_timer_element p w)
unfolding add_timer_element
add_timer_element-SameBut p w = record { last_time = refl; elements = λ q. ground arith }

pub add_timer_elements-SameBut : (ps : List ℕ) (w : Wheel) → SameBut w (add_timer_elements ps w)
unfolding add_timer_elements
add_timer_elements-SameBut [] w = SameBut-refl w
add_timer_elements-SameBut (p ∷ ps) w =
    SameBut-trans (add_timer_element-SameBut p w)
      (add_timer_elements-SameBut ps (add_timer_element p w))

pub cascade-SameBut : (l : Level) (i : ℕ) (w : Wheel) → SameBut w (cascade l i w).1
unfolding cascade detach
cascade-SameBut l i w =
    SameBut-trans (record { last_time = refl; elements = λ q. refl })
      (add_timer_elements-SameBut (detach l i w).0 (detach l i w).1)

cascade_from-SameBut : (c : List (Level × ℕ)) (w : Wheel) → SameBut w (cascade_from c w)
unfolding cascade_from cascade
cascade_from-SameBut [] w = SameBut-refl w
cascade_from-SameBut ((l, n) ∷ rest) w =
    let i = dm_index w.last_time n in
    elim (Bool-cases (i == 0)) [
      | inl z ↦
          rw z (SameBut-trans (cascade-SameBut l i w) (cascade_from-SameBut rest (cascade l i w).1))
      | inr z ↦ rw z (cascade-SameBut l i w)
    ]

-- The cascades leave `m_qwLastTime` and all of every element but its link as they are.
pub cascades-SameBut : (w : Wheel) → SameBut w (cascades w)
unfolding cascades
cascades-SameBut w = elim (Bool-cases (tvr_mask w.last_time == 0)) [
  | inl z ↦ rw z (cascade_from-SameBut upper_levels w)
  | inr z ↦ rw z (SameBut-refl w)
]
