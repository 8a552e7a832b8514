-- ===== src/Cron/Next/Daily.antt =====
-- An expression without limits on days and months: `find_next` ends after four levels of its recursion
-- at most, with a date that matches.
use mathlib.Core.Bool.{false≢true}
use dmtimer.Base.{
  ℕ, zero, suc, ◌-◌, ◌≤◌, ◌<◌, ◌≡◌, refl, sym, ◌∙◌, inl, inr, Bool, true, false, arith, ◌==◌,
  ==_self, Bool-cases, ltb, sub64, Outcome, done,
}
use dmtimer.Cron.{Bits, CronExpr, cron_standard_traits}
use dmtimer.Cron.Date.{
  Tm, Calendar, CronField, hour_of_day, day_of_week, month, year, Marks, invalid_index,
}
use dmtimer.Cron.Next.{
  next_set_bit, test_bit, wrap_field, find_next_field, misses, find_day, find_next_day, proceed,
  again_unless, months_on, days_on, hours_on,
}
use dmtimer.Cron.Next.SetBit.{IsFirst, next_set_bit-IsFirst}
use dmtimer.Cron.Next.Regular.{IsNormal}
use dmtimer.Cron.Next.Moves.{SameOr0}
use dmtimer.Cron.Make.Sound.{HasBit}

-- Every day and every month is in the expression, and some second, minute and hour.
pub record IsDaily (cex : CronExpr) : Type 0 where
  pub seconds : HasBit 60 cex.seconds
  pub minutes : HasBit 60 cex.minutes
  pub hours : HasBit 24 cex.hours
  pub days_of_week : (i : ℕ) → i < 7 → cex.days_of_week i ≡ true
  pub days_of_month : (i : ℕ) → i < 31 → cex.days_of_month i ≡ true
  pub months : (i : ℕ) → i < 12 → cex.months i ≡ true

-- The date is in order and its second, minute and hour are in the expression.
pub record Matches (cex : CronExpr) (d : Tm) : Type 0 where
  pub normal : IsNormal d
  pub second : cex.seconds d.sec ≡ true
  pub minute : cex.minutes d.min ≡ true
  pub hour : cex.hours d.hour ≡ true

-- A bit is set from `v` on.
pub record Later (N : ℕ) (b : Bits) (v : ℕ) : Type 0 where
  pub at : ℕ
  pub from_v : v ≤ at
  pub inside : at < N
  pub is_set : b at ≡ true

pub Later-SameOr0 :
    {N : ℕ} {b : Bits} (x y : ℕ) → HasBit N b → y < N → b y ≡ true → SameOr0 x y → Later N b x
Later-SameOr0 x y has inside is_set (inl e) = record {
  at = y;
  from_v = omega arith;
  inside = inside;
  is_set = is_set;
}
Later-SameOr0 x y has inside is_set (inr e) = record {
  at = has.bit;
  from_v = omega arith;
  inside = has.inside;
  is_set = has.is_set;
}

module _ (cal : Calendar) where
  -- a value whose bit is set stays, and so does the date
  pub find_next_field-stays :
      (N : ℕ) (target : Bits) (date : Tm) (value : ℕ) (field next_field : CronField)
      (marked : Marks)
      → N ≤ 60
      → value < N
      → target value ≡ true
      → find_next_field cal N target date value field next_field marked ≡ done (value, date)
  unfolding find_next_field wrap_field
  find_next_field-stays N target date value field next_field marked small inside is_set =
      rw (first, valid, ==_self value, valid) refl
    where
      valid : (value == invalid_index) ≡ false
      valid = ground arith

      at_value :
          IsFirst N target value (next_set_bit N target value) → next_set_bit N target value ≡ value
      at_value f = elim (Bool-cases (ltb value (next_set_bit N target value))) [
        | inl e ↦
            absurd (false≢true (sym (f.none_before value (omega arith) (ground arith)) ∙ is_set))
        | inr n ↦ ground (arith, f.from_offset)
      ]

      first : next_set_bit N target value ≡ value
      first = elim (next_set_bit-IsFirst N value target) [
        | inl (e, none) ↦ absurd (false≢true (sym (none value (omega arith) inside) ∙ is_set))
        | inr f ↦ at_value f
      ]

module _ (cal : Calendar) (cex : CronExpr) (daily : IsDaily cex) (dot : ℕ) where
  misses-no :
      (date : Tm)
      → IsNormal date
      → misses cal cron_standard_traits cex date.mday date.wday ≡ done false
  unfolding misses test_bit
  misses-no date n =
      let day : sub64 date.mday 1 ≡ date.mday - 1 = omega arith in
      let week : sub64 date.wday 0 ≡ date.wday = omega arith in
      let a : ltb (date.mday - 1) 31 ≡ true = ground arith in
      let b : ltb date.wday 7 ≡ true = ground arith in
      let c : cex.days_of_month (date.mday - 1) ≡ true =
        daily.days_of_month (date.mday - 1) (omega arith) in
      let e : cex.days_of_week date.wday ≡ true = daily.days_of_week date.wday n.wday in
      rw (day, a, c, week, b, e) refl

  find_day-stays :
      (k : ℕ) (date : Tm) (marked : Marks)
      → IsNormal date
      → find_day cal cron_standard_traits k cex date date.mday date.wday marked
        ≡ done (date.mday, date)
  unfolding find_day
  find_day-stays zero date marked n = rw (misses-no date n) refl
  find_day-stays (suc k) date marked n = rw (misses-no date n) refl

  -- the parts of `find_next` at a date whose parts are in the expression
  months_on-good :
      (rec : Tm → Outcome (Bool × Tm)) (marked : Marks) (date : Tm)
      → IsNormal date
      → months_on cal cron_standard_traits cex dot rec marked date ≡ done (true, date)
  unfolding months_on
  months_on-good rec marked date n =
      rw
        (
          find_next_field-stays cal 12 cex.months date date.mon month year marked (omega arith)
              n.mon (daily.months date.mon n.mon),
          ==_self date.mon,
        )
        refl

  pub days_on-good :
      (rec : Tm → Outcome (Bool × Tm)) (marked : Marks) (date : Tm)
      → IsNormal date
      → days_on cal cron_standard_traits cex dot rec marked date ≡ done (true, date)
  unfolding days_on find_next_day again_unless proceed
  days_on-good rec marked date n =
      rw (find_day-stays 366 date marked n, ==_self date.mday) (months_on-good rec _ date n)

  pub hours_on-good :
      (rec : Tm → Outcome (Bool × Tm)) (marked : Marks) (date : Tm)
      → IsNormal date
      → cex.hours date.hour ≡ true
      → hours_on cal cron_standard_traits cex dot rec marked date ≡ done (true, date)
  unfolding hours_on again_unless proceed
  hours_on-good rec marked date n h =
      rw
        (
          find_next_field-stays cal 24 cex.hours date date.hour hour_of_day day_of_week marked
              (omega arith) n.hour h,
          ==_self date.hour,
        )
        (days_on-good rec _ date n)
