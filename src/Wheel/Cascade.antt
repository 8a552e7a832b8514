-- ===== src/Wheel/Cascade.antt =====
-- `__Cascade` and the chain of cascades at the head of a round of `Run`: afterwards no block of the
-- upper vectors starts at the current tick any more.
use dmtimer.Base.{
  ℕ, suc, ◌+◌, ◌*◌, ◌/◌, ◌%◌, ◌^◌, ◌≤◌, ◌<◌, ◌≡◌, ◌≢◌, ap, refl, sym, ◌∙◌, ◌⊎◌, inl, inr, true,
  List, [], ◌∷◌, arith, ◌==◌, leb, if◌then◌else◌, Bool-cases, count,
}
use native.Mathlib.Nat.{mul-mod_left, div-eq_of_eq-mul_left}
use dmtimer.Sink.{tvr_mask, dm_index}
use dmtimer.Wheel.{
  Level, tv1, tv2, tv3, tv4, tv5, level_no, Wheel, add_timer_element, add_timer_elements, detach,
  cascade, cascade_from, cascades,
}
use dmtimer.Wheel.Due.{Due, Block, Due-le, Ahead}
use dmtimer.Wheel.Occurs.{level_no-injective}
use dmtimer.Wheel.Timely.{
  expiry, IsTimely, set_slot-cases, add_timer_element-IsTimely, expiry-add_timer_element,
  last_time-add_timer_element,
}

-- the ticks that one slot of a vector stands for
abbrev pub unit : Level → ℕ
unit tv1 = 1
unit tv2 = 2 ^ 8
unit tv3 = 2 ^ 14
unit tv4 = 2 ^ 20
unit tv5 = 2 ^ 26

-- Where the blocks may start when the vectors up to number `k` are cascaded at tick `last`.
abbrev pub stage : ℕ → ℕ → Level → ℕ
stage k last l = if leb (level_no l) k then last + 1 else last

multiple : (b u t : ℕ) → 0 < u → t ≡ b * u → (t % u ≡ 0) × (t / u ≡ b)
multiple b u t pos e = (rw e (mul-mod_left b u), div-eq_of_eq-mul_left pos e)

-- A block that starts at `last` is the one whose slot is current; any other starts later.
Block-next :
    (u last i e : ℕ)
    → 0 < u
    → (last % u ≢ 0) ⊎ (i ≢ last / u % 64)
    → Block u last last i e
    → Block u (last + 1) last i e
Block-next u last i e pos other b = record {
  block = b.block;
  starts = omega (arith, starts);
  in_turn = b.in_turn;
  slot = b.slot;
  reached = b.reached;
}
  where
    starts : last ≢ b.block * u
    starts same = elim other [
      | inl ne ↦ ne (multiple b.block u last pos same).0
      | inr ne ↦ ne (sym b.slot ∙ ap (λ k. k % 64) (sym (multiple b.block u last pos same).1))
    ]

Due-next :
    (l : Level) (last i e : ℕ)
    → (last % unit l ≢ 0) ⊎ (i ≢ last / unit l % 64)
    → Due last last l i e
    → Due (last + 1) last l i e
Due-next tv1 last i e other d = d
Due-next tv2 last i e other d = Block-next (2 ^ 8) last i e (omega arith) other d
Due-next tv3 last i e other d = Block-next (2 ^ 14) last i e (omega arith) other d
Due-next tv4 last i e other d = Block-next (2 ^ 20) last i e (omega arith) other d
Due-next tv5 last i e other d = Block-next (2 ^ 26) last i e (omega arith) other d

add_timer_elements-IsTimely :
    (from : Level → ℕ) (ps : List ℕ) (w : Wheel)
    → ((l : Level) → from l ≤ w.last_time + 1)
    → ((p : ℕ) → 0 < count p ps → Ahead w.last_time (expiry w p))
    → IsTimely from w
    → IsTimely from (add_timer_elements ps w)
unfolding add_timer_elements
add_timer_elements-IsTimely from [] w low ahead t = t
add_timer_elements-IsTimely from (p ∷ ps) w low ahead t =
    add_timer_elements-IsTimely from ps (add_timer_element p w)
      (λ l. rw last_time-add_timer_element (low l))
      (λ q h. rw (last_time-add_timer_element, expiry-add_timer_element) (ahead q (omega arith)))
      (add_timer_element-IsTimely from p w low (ahead p (ground arith)) t)

-- The stages of a vector before and behind its own cascade, and of the others.
stage-own :
    (k last : ℕ) (l : Level)
    → level_no l ≡ suc k
    → (stage k last l ≡ last) × (stage (suc k) last l ≡ last + 1)
stage-own k last l e = ground arith

stage-other :
    (k last : ℕ) (l l' : Level)
    → level_no l ≡ suc k
    → l' ≢ l
    → stage (suc k) last l' ≡ stage k last l'
stage-other k last l l' e n =
    ground (arith, λ (h : (level_no l' == level_no l) ≡ true). n (level_no-injective l l' h))

count-nil : (q : ℕ) → 0 < count q [] → ⊥
count-nil q h = omega arith

-- Detaching the current slot of vector number `k + 1` leaves blocks that start later.
detach-IsTimely :
    (k : ℕ) (l : Level) (w : Wheel)
    → level_no l ≡ suc k
    → IsTimely (stage k w.last_time) w
    → IsTimely (stage (suc k) w.last_time) (detach l (w.last_time / unit l % 64) w).1
unfolding detach
detach-IsTimely k l w e t = record {
  due = λ l' i' q h. elim (set_slot-cases w.slots l i [] l' i') [
    | inl (el, ei, es) ↦ absurd (count-nil q (rw es at h))
    | inr (inl (el, ni, es)) ↦ rw el (own i' q (rw (es, el) at h) ni)
    | inr (inr (nl, es)) ↦ rw (stage-other k last l l' e nl) (t.due l' i' q (rw es at h))
  ];
  soon = λ l' i' q h. elim (set_slot-cases w.slots l i [] l' i') [
    | inl (el, ei, es) ↦ absurd (count-nil q (rw es at h))
    | inr (inl (el, ni, es)) ↦ t.soon l' i' q (rw es at h)
    | inr (inr (nl, es)) ↦ t.soon l' i' q (rw es at h)
  ];
}
  where
    last : ℕ
    last = w.last_time

    i : ℕ
    i = last / unit l % 64

    own :
        (i' q : ℕ)
        → 0 < count q (w.slots l i')
        → i' ≢ i
        → Due (stage (suc k) last l) last l i' (expiry w q)
    own i' q h ni =
        rw (stage-own k last l e).1 (
          Due-next l last i' (expiry w q) (inr ni)
            (rw (stage-own k last l e).0 at (t.due l i' q h)))

-- Cascading the current slot of vector number `k + 1` takes the wheel to the next stage.
pub cascade-IsTimely :
    (k : ℕ) (l : Level) (w : Wheel)
    → level_no l ≡ suc k
    → IsTimely (stage k w.last_time) w
    → IsTimely (stage (suc k) w.last_time) (cascade l (w.last_time / unit l % 64) w).1
unfolding cascade detach
cascade-IsTimely k l w e t =
    let i = w.last_time / unit l % 64 in
    add_timer_elements-IsTimely (stage (suc k) w.last_time) (detach l i w).0 (detach l i w).1
      (λ l'. ground arith)
      (λ p h. record {
        from_last =
            Due-le l w.last_time w.last_time i (expiry w p) (omega arith)
              (rw (stage-own k w.last_time l e).0 at (t.due l i p h));
        below = t.soon l i p h;
      })
      (detach-IsTimely k l w e t)

last_time-add_timer_elements :
    (ps : List ℕ) (w : Wheel) → (add_timer_elements ps w).last_time ≡ w.last_time
unfolding add_timer_elements
last_time-add_timer_elements [] w = refl
last_time-add_timer_elements (p ∷ ps) w =
    last_time-add_timer_elements ps (add_timer_element p w) ∙ last_time-add_timer_element p w

pub last_time-cascade : (l : Level) (i : ℕ) (w : Wheel) → (cascade l i w).1.last_time ≡ w.last_time
unfolding cascade detach
last_time-cascade l i w = last_time-add_timer_elements (detach l i w).0 (detach l i w).1

-- Where `last` is no multiple of the units above vector `k`, no block starts there at `last`.
stage-skip :
    (k : ℕ) (w : Wheel)
    → ((l : Level) → k < level_no l → w.last_time % unit l ≢ 0)
    → IsTimely (stage k w.last_time) w
    → IsTimely (stage 5 w.last_time) w
stage-skip k w odd t = record {
  due = λ l i p h. elim (Bool-cases (leb (level_no l) k)) [
    | inl e ↦ rw (top l) (rw e at (t.due l i p h))
    | inr e ↦
        rw (top l)
          (Due-next l w.last_time i _ (inl (odd l (ground arith))) (rw e at (t.due l i p h)))
  ];
  soon = t.soon;
}
  where
    top : (l : Level) → leb (level_no l) 5 ≡ true
    top tv1 = refl
    top tv2 = refl
    top tv3 = refl
    top tv4 = refl
    top tv5 = refl

-- Where the current index of a vector is not 0, the tick starts no block of a vector above.
odd_above1 : (t : ℕ) (l : Level) → tvr_mask t ≢ 0 → 1 < level_no l → t % unit l ≢ 0
odd_above1 t tv1 h lt = absurd (omega arith)
odd_above1 t tv2 h lt = omega arith
odd_above1 t tv3 h lt = omega arith
odd_above1 t tv4 h lt = omega arith
odd_above1 t tv5 h lt = omega arith

odd_above2 : (t : ℕ) (l : Level) → dm_index t 0 ≢ 0 → 2 < level_no l → t % unit l ≢ 0
odd_above2 t tv1 h lt = absurd (omega arith)
odd_above2 t tv2 h lt = absurd (omega arith)
odd_above2 t tv3 h lt = omega arith
odd_above2 t tv4 h lt = omega arith
odd_above2 t tv5 h lt = omega arith

odd_above3 : (t : ℕ) (l : Level) → dm_index t 1 ≢ 0 → 3 < level_no l → t % unit l ≢ 0
odd_above3 t tv1 h lt = absurd (omega arith)
odd_above3 t tv2 h lt = absurd (omega arith)
odd_above3 t tv3 h lt = absurd (omega arith)
odd_above3 t tv4 h lt = omega arith
odd_above3 t tv5 h lt = omega arith

odd_above4 : (t : ℕ) (l : Level) → dm_index t 2 ≢ 0 → 4 < level_no l → t % unit l ≢ 0
odd_above4 t tv5 h lt = omega arith
odd_above4 t tv1 h lt = absurd (omega arith)
odd_above4 t tv2 h lt = absurd (omega arith)
odd_above4 t tv3 h lt = absurd (omega arith)
odd_above4 t tv4 h lt = absurd (omega arith)

none_above5 : (t : ℕ) (l : Level) → dm_index t 3 ≢ 0 → 5 < level_no l → t % unit l ≢ 0
none_above5 t tv1 h lt = absurd (omega arith)
none_above5 t tv2 h lt = absurd (omega arith)
none_above5 t tv3 h lt = absurd (omega arith)
none_above5 t tv4 h lt = absurd (omega arith)
none_above5 t tv5 h lt = absurd (omega arith)

-- One link of the chain: its cascade, and the rest of the chain if the index is 0.
link :
    (k n : ℕ) (l : Level) (rest : List (Level × ℕ)) (w : Wheel)
    → level_no l ≡ suc k
    → dm_index w.last_time n ≡ w.last_time / unit l % 64
    → (dm_index w.last_time n ≢ 0 → (l' : Level) → suc k < level_no l' → w.last_time % unit l' ≢ 0)
    → ((w' : Wheel)
        → w'.last_time ≡ w.last_time
        → IsTimely (stage (suc k) w'.last_time) w'
        → IsTimely (stage 5 w'.last_time) (cascade_from rest w'))
    → IsTimely (stage k w.last_time) w
    → IsTimely (stage 5 w.last_time) (cascade_from ((l, n) ∷ rest) w)
unfolding cascade_from cascade add_timer_elements
link k n l rest w e index odd tail t =
    let i = dm_index w.last_time n in
    let w' = (cascade l i w).1 in
    let same : w'.last_time ≡ w.last_time = last_time-cascade l i w in
    let t' : IsTimely (stage (suc k) w'.last_time) w' =
      rw (same, index) (cascade-IsTimely k l w e t) in
    elim (Bool-cases (i == 0)) [
      | inl z ↦ rw z (rw same at (tail w' same t'))
      | inr z ↦
          rw z (rw same at (stage-skip (suc k) w' (λ l' h. rw same (odd (ground arith) l' h)) t'))
    ]

cascade_from-nil : (w : Wheel) → cascade_from [] w ≡ w
unfolding cascade_from
cascade_from-nil w = refl

-- The cascades at the head of a round of `Run` take a wheel whose entries are due, at the tick
-- `m_qwLastTime`, to one whose upper vectors hold only blocks that start behind that tick.
pub cascades-IsTimely :
    (w : Wheel) → IsTimely (stage 1 w.last_time) w → IsTimely (stage 5 w.last_time) (cascades w)
unfolding cascades
cascades-IsTimely w t = elim (Bool-cases (tvr_mask w.last_time == 0)) [
  | inr z ↦ rw z (stage-skip 1 w (λ l h. odd_above1 w.last_time l (ground arith) h) t)
  | inl z ↦ rw z (
      link 1 0 tv2 ((tv3, 1) ∷ (tv4, 2) ∷ (tv5, 3) ∷ []) w refl refl
        (λ h l. odd_above2 w.last_time l h)
        (λ w1 e1.
          link 2 1 tv3 ((tv4, 2) ∷ (tv5, 3) ∷ []) w1 refl refl (λ h l. odd_above3 w1.last_time l h)
            (λ w2 e2.
              link 3 2 tv4 ((tv5, 3) ∷ []) w2 refl refl (λ h l. odd_above4 w2.last_time l h)
                (λ w3 e3.
                  link 4 3 tv5 [] w3 refl refl (λ h l. none_above5 w3.last_time l h)
                    (λ w4 e4 t4. rw cascade_from-nil t4))))
        t)
]
