-- ===== src/Cron/Next/Parts.antt =====
-- `find_next` of one field: the value stays, or the field moves to a set bit.
use dmtimer.Base.{
  ℕ, ◌%◌, ◌^◌, ◌≤◌, ◌<◌, ◌≡◌, refl, sym, ◌∙◌, inl, inr, ◌⊎◌, Bool, true, false, not, ◌||◌, arith,
  ◌==◌, ==→eq, ==_self, if◌then◌else◌, Bool-cases, false, done, ◌>>=◌, Returns, returns,
  Returns-bind, Returns-bind_after,
}
use mathlib.Core.Bool.{false≢true}
use dmtimer.Cron.{Bits}
use dmtimer.Cron.Date.{
  Tm, Calendar, CronField, Marks, invalid_index, add_to_field, set_field, reset_field,
  reset_all_fields,
}
use dmtimer.Cron.Next.{next_set_bit, wrap_field, find_next_field}
use dmtimer.Cron.Next.SetBit.{IsFirst, next_set_bit-IsFirst}
use dmtimer.Cron.Make.Sound.{HasBit}

-- The field has moved from `value` to a set bit; it was changed in the date `from`. This is the date of
-- the call, with a bit ahead, unless no bit is set from `value` on.
pub record Moved {ℓ κ} (N : ℕ) (target : Bits) (date : Tm) (value : ℕ) (Q : Bool → Tm → Type ℓ)
    (R : ℕ → Tm → Tm → Type κ) (r : ℕ × Tm) : Type (ℓ ⊔ κ) where
  pub differs : (value == r.0) ≡ false
  pub inside : r.0 < N
  pub is_set : target r.0 ≡ true
  pub from : Tm
  pub wrapped : Bool
  pub origin : Q wrapped from
  pub changed : R r.0 from r.1
  pub ahead : wrapped ≡ false → (from ≡ date) × (value < r.0)
  pub direct : (j : ℕ) → value ≤ j → j < N → target j ≡ true → wrapped ≡ false

-- The value stays, and so does the date; or the field has moved.
abbrev pub Stepped {ℓ κ} :
    ℕ → Bits → Tm → ℕ → (Bool → Tm → Type ℓ) → (ℕ → Tm → Tm → Type κ) → ℕ × Tm → Type (ℓ ⊔ κ)
Stepped N target date value Q R r =
    ((r ≡ (value, date)) × (target value ≡ true)) ⊎ Moved N target date value Q R r

module _ {ℓ κ} (cal : Calendar) {N : ℕ} {target : Bits} (field next_field : CronField)
    (marked : Marks) (Q : Bool → Tm → Type ℓ) (R : ℕ → Tm → Tm → Type κ) (small : N ≤ 60)
    (change : (wrapped : Bool) (v : ℕ) (from : Tm)
      → v < N
      → Q wrapped from
      → Returns (R v from) (do d ← set_field cal from field v; reset_all_fields cal d marked)) where
  move :
      (date : Tm) (value v : ℕ) (from : Tm) (wrapped : Bool)
      → (v == value) ≡ false
      → v < N
      → target v ≡ true
      → Q wrapped from
      → (wrapped ≡ false → (from ≡ date) × (value < v))
      → ((j : ℕ) → value ≤ j → j < N → target j ≡ true → wrapped ≡ false)
      → Returns (Stepped N target date value Q R) (
          if (v == invalid_index) || not (v == value)
          then (do
            d1 ← set_field cal from field (v % 2 ^ 32)
            d2 ← reset_all_fields cal d1 marked
            done (v, d2))
          else done (v, from))
  move date value v from wrapped ne inside is_set origin ahead direct =
      let e : v % 2 ^ 32 ≡ v = omega arith in
      let n : ((v == invalid_index) || not (v == value)) ≡ true = ground (arith, ne) in
      rw (n, e)
        (Returns-bind_after (set_field cal from field v) _ (change wrapped v from inside origin)
          λ d p. returns (
            inr (record {
              differs = ground (arith, ne);
              inside = inside;
              is_set = is_set;
              from = from;
              wrapped = wrapped;
              origin = origin;
              changed = p;
              ahead = ahead;
              direct = direct;
            })))

  pub find_next_field-Stepped :
      (date : Tm) (value : ℕ)
      → HasBit N target
      → value < N
      → Q false date
      → Returns (Q true) (do d ← add_to_field cal date next_field 1; reset_field cal d field)
      → Returns
          (Stepped N target date value Q R)
          (find_next_field cal N target date value field next_field marked)
  unfolding find_next_field wrap_field
  find_next_field-Stepped date value bit inside origin wrapped =
      elim (next_set_bit-IsFirst N value target) [
        | inr f ↦
            let v = next_set_bit N target value in
            let valid : (v == invalid_index) ≡ false = below_invalid v f.inside in
            elim (Bool-cases (v == value)) [
              | inl same ↦
                  let e : v ≡ value = ==→eq v value same in
                  let valid' : (value == invalid_index) ≡ false = below_invalid value inside in
                  rw (e, valid', ==_self value, valid') (returns (inl (refl, rw e at f.is_set)))
              | inr ne ↦ rw valid (
                  move date value v date false ne f.inside f.is_set origin
                    (λ w. (refl, ground (arith, ne, f.from_offset))) (λ j h k b. refl))
            ]
        | inl (e, none) ↦
            let f = first_of_all in
            let other : (next_set_bit N target 0 == value) ≡ false = not_value none f.is_set in
            rw e (
              Returns-bind wrapped_pair λ r p.
                move date value r.0 r.1 true (rw p.0 other) (rw p.0 f.inside) (rw p.0 f.is_set) p.1
                  (λ w. absurd (false≢true (sym w)))
                  λ j h k b. absurd (false≢true (sym (none j h k) ∙ b)))
      ]
    where
      below_invalid : (v : ℕ) → v < N → (v == invalid_index) ≡ false
      below_invalid v h = ground arith

      first_of_all : IsFirst N target 0 (next_set_bit N target 0)
      first_of_all = elim (next_set_bit-IsFirst N 0 target) [
        | inr f ↦ f
        | inl (e, none) ↦
            absurd (false≢true (sym (none bit.bit (omega arith) bit.inside) ∙ bit.is_set))
      ]

      not_value :
          ((j : ℕ) → value ≤ j → j < N → target j ≡ false)
          → target (next_set_bit N target 0) ≡ true
          → (next_set_bit N target 0 == value) ≡ false
      not_value none is_set = elim (Bool-cases (next_set_bit N target 0 == value)) [
        | inr n ↦ n
        | inl e ↦
            let same : next_set_bit N target 0 ≡ value = ==→eq _ value e in
            absurd (false≢true (sym (none value (omega arith) inside) ∙ rw same at is_set))
      ]

      wrapped_pair :
          Returns
            (λ (r : ℕ × Tm). (r.0 ≡ next_set_bit N target 0) × Q true r.1)
            (do
              d1 ← add_to_field cal date next_field 1
              d2 ← reset_field cal d1 field
              done (next_set_bit N target 0, d2))
      wrapped_pair =
          Returns-bind_after (add_to_field cal date next_field 1) _ wrapped λ d q. returns (refl, q)
