-- ===== src/Cron/Next/Moves.antt =====
-- How one field of the time of the day moves in `find_next`: the date goes on, by a bounded time.
use dmtimer.Base.{
  ℕ, ◌+◌, ◌*◌, ◌≤◌, ◌<◌, ◌≡◌, refl, ap, ◌∙◌, inl, inr, ◌⊎◌, Bool, true, false, arith, if◌then◌else◌,
  Bool-cases, Returns, Returns-bind, Returns-mono,
}
use mathlib.Core.Bool.{false≢true}
use dmtimer.Cron.{Bits}
use dmtimer.Cron.Date.{Tm, Calendar, second, minute, hour_of_day, day_of_week, Marks}
use dmtimer.Cron.Next.{find_next_field, no_marks}
use dmtimer.Cron.Next.Parts.{Moved, Stepped, find_next_field-Stepped}
use dmtimer.Cron.Next.Regular.{IsNormal, IsRegular, Has, day_start, clock}
use dmtimer.Cron.Next.Changes.{
  set_second-Has, set_minute-Has, set_hour-Has, add_minute-Settled, add_hour-Settled, add_day-Has,
  reset_second-Has, reset_minute-Has, reset_hour-Has,
}
use dmtimer.Cron.Next.Resets.{reset_all_fields-Has}
use dmtimer.Cron.Make.Sound.{HasBit}

abbrev pub SameOr0 : ℕ → ℕ → Type 0
SameOr0 x y = (x ≡ y) ⊎ (x ≡ 0)

SameOr0-of : {x y z : ℕ} (b : Bool) → x ≡ (if b then 0 else y) → y ≡ z → SameOr0 x z
SameOr0-of true e e' = inr e
SameOr0-of false e e' = inl (e ∙ e')

unmarked : {x y z : ℕ} {b : Bool} → b ≡ false → x ≡ (if b then 0 else y) → y ≡ z → x ≡ z
unmarked {b} n e e' = rw n at e ∙ e'

module _ (cal : Calendar) {from limit : ℕ} (regular : IsRegular cal from limit) (date : Tm) where
  abbrev clock_of : Tm → ℕ
  clock_of t = clock regular.days t

  abbrev day_of : Tm → ℕ
  day_of t = day_start regular.days t

  -- The date before the field is set: the date of the call, or it has wrapped into the next minute.
  abbrev pub BeforeSecond : Bool → Tm → Type 0
  BeforeSecond wrapped from =
      IsNormal from
      × (day_of from + 86400 ≤ limit)
      × (wrapped ≡ true → (clock_of from + date.sec ≡ clock_of date + 60) × (from.sec ≡ 0))

  abbrev pub AfterSecond : ℕ → Tm → Tm → Type 0
  AfterSecond v from r = Has regular.days (day_of from) v from.min from.hour r

  pub second_moved :
      {target : Bits}
      → IsNormal date
      → clock_of date + 172800 ≤ limit
      → HasBit 60 target
      → Returns
          (Stepped 60 target date date.sec BeforeSecond AfterSecond)
          (find_next_field cal 60 target date date.sec second minute no_marks)
  second_moved n room bit =
      find_next_field-Stepped cal second minute no_marks BeforeSecond AfterSecond (omega arith)
        (λ wrapped v from inside q.
          Returns-bind (set_second-Has cal regular from v q.0 q.1 inside) λ d h.
            Returns-mono
              (reset_all_fields-Has cal regular no_marks (λ i k. refl) d h.normal
                (omega (arith, q.1, h.start)))
              λ r k. record {
                normal = k.normal;
                start = k.start ∙ h.start;
                sec = k.sec ∙ h.sec;
                min = k.min ∙ h.min;
                hour = k.hour ∙ h.hour;
              })
        date date.sec bit n.sec (n, omega (arith, room), λ w. absurd (false≢true w))
        (Returns-bind (add_minute-Settled cal regular date n (omega (arith, room))) λ d h.
          Returns-mono (reset_second-Has cal regular d h.0 (omega (arith, room, h.2))) λ r k. (
            k.normal,
            omega (arith, room, h.2, k.start, k.sec, k.min, k.hour),
            λ w. (omega (arith, h.1, h.2, k.start, k.sec, k.min, k.hour), k.sec),
          ))

  abbrev pub BeforeMinute : Bool → Tm → Type 0
  BeforeMinute wrapped from =
      IsNormal from
      × (from.sec ≡ date.sec)
      × (day_of from + 86400 ≤ limit)
      × (wrapped ≡ true → (clock_of from + 60 * date.min ≡ clock_of date + 3600) × (from.min ≡ 0))

  abbrev pub AfterMinute : ℕ → Tm → Tm → Type 0
  AfterMinute v from r =
      IsNormal r
      × (r.min ≡ v)
      × SameOr0 r.sec from.sec
      × (r.hour ≡ from.hour)
      × (day_of r ≡ day_of from)

  pub minute_moved :
      {target : Bits} (marked : Marks)
      → IsNormal date
      → clock_of date + 172800 ≤ limit
      → HasBit 60 target
      → ((i : ℕ) → 1 ≤ i → marked i ≡ false)
      → Returns
          (Stepped 60 target date date.min BeforeMinute AfterMinute)
          (find_next_field cal 60 target date date.min minute hour_of_day marked)
  minute_moved marked n room bit low =
      find_next_field-Stepped cal minute hour_of_day marked BeforeMinute AfterMinute (omega arith)
        (λ wrapped v from inside q.
          Returns-bind (set_minute-Has cal regular from v q.0 q.2 inside) λ d h.
            Returns-mono
              (reset_all_fields-Has cal regular marked (λ i k. low i (omega arith)) d h.normal
                (omega (arith, q.2, h.start)))
              λ r k. (
                k.normal,
                unmarked (low 1 (omega arith)) k.min h.min,
                SameOr0-of (marked 0) k.sec h.sec,
                unmarked (low 2 (omega arith)) k.hour h.hour,
                k.start ∙ h.start,
              ))
        date date.min bit n.min (n, refl, omega (arith, room), λ w. absurd (false≢true w))
        (Returns-bind (add_hour-Settled cal regular date n (omega (arith, room))) λ d h.
          Returns-mono (reset_minute-Has cal regular d h.0 (omega (arith, room, h.3))) λ r k. (
            k.normal,
            k.sec ∙ h.1,
            omega (arith, room, h.3, k.start),
            λ w. (omega (arith, h.2, h.3, k.start, k.sec, k.min, k.hour), k.min),
          ))

  abbrev pub BeforeHour : Bool → Tm → Type 0
  BeforeHour wrapped from =
      IsNormal from
      × (from.sec ≡ date.sec)
      × (from.min ≡ date.min)
      × (day_of from + 86400 ≤ limit)
      × (wrapped ≡ true
          → (clock_of from + 3600 * date.hour ≡ clock_of date + 86400) × (from.hour ≡ 0))

  abbrev pub AfterHour : ℕ → Tm → Tm → Type 0
  AfterHour v from r =
      IsNormal r
      × (r.hour ≡ v)
      × SameOr0 r.sec from.sec
      × SameOr0 r.min from.min
      × (day_of r ≡ day_of from)

  pub hour_moved :
      {target : Bits} (marked : Marks)
      → IsNormal date
      → clock_of date + 172800 ≤ limit
      → HasBit 24 target
      → ((i : ℕ) → 2 ≤ i → marked i ≡ false)
      → Returns
          (Stepped 24 target date date.hour BeforeHour AfterHour)
          (find_next_field cal 24 target date date.hour hour_of_day day_of_week marked)
  hour_moved marked n room bit low =
      find_next_field-Stepped cal hour_of_day day_of_week marked BeforeHour AfterHour (omega arith)
        (λ wrapped v from inside q.
          Returns-bind (set_hour-Has cal regular from v q.0 q.3 inside) λ d h.
            Returns-mono
              (reset_all_fields-Has cal regular marked (λ i k. low i (omega arith)) d h.normal
                (omega (arith, q.3, h.start)))
              λ r k. (
                k.normal,
                unmarked (low 2 (omega arith)) k.hour h.hour,
                SameOr0-of (marked 0) k.sec h.sec,
                SameOr0-of (marked 1) k.min h.min,
                k.start ∙ h.start,
              ))
        date date.hour bit n.hour (n, refl, refl, omega (arith, room), λ w. absurd (false≢true w))
        (Returns-bind (add_day-Has cal regular date n room) λ d h.
          Returns-mono (reset_hour-Has cal regular d h.normal (omega (arith, room, h.start))) λ r k.
            (
              k.normal,
              k.sec ∙ h.sec,
              k.min ∙ h.min,
              omega (arith, room, h.start, k.start),
              λ w. (omega (arith, h.start, h.sec, h.min, k.start, k.sec, k.min, k.hour), k.hour),
            ))

  -- The date goes on when the field moves, within twice the next unit of time.
  abbrev pub GoesOn : ℕ → Tm → Type 0
  GoesOn bound r = (clock_of date < clock_of r) × (clock_of r ≤ clock_of date + bound)

  pub second-GoesOn :
      {target : Bits} {r : ℕ × Tm}
      → IsNormal date
      → Moved 60 target date date.sec BeforeSecond AfterSecond r
      → GoesOn 120 r.1
  second-GoesOn n m =
      let k = m.changed in
      elim (Bool-cases m.wrapped) [
        | inl w ↦
            let (c, z) = m.origin.2 w in
            (
              omega (arith, c, z, k.start, k.sec, k.min, k.hour, n.sec),
              omega (arith, c, z, k.start, k.sec, k.min, k.hour, m.inside),
            )
        | inr d ↦
            let (e, h) = m.ahead d in
            let day = ap day_of e in
            let min = ap (λ t. t.min) e in
            let hour = ap (λ t. t.hour) e in
            (
              omega (arith, h, day, min, hour, k.start, k.sec, k.min, k.hour),
              omega (arith, h, day, min, hour, k.start, k.sec, k.min, k.hour, m.inside),
            )
      ]

  SameOr0-le : (x y : ℕ) → SameOr0 x y → x ≤ y
  SameOr0-le x y s = ground (arith, s)

  pub minute-GoesOn :
      {target : Bits} {r : ℕ × Tm}
      → IsNormal date
      → Moved 60 target date date.min BeforeMinute AfterMinute r
      → GoesOn 7200 r.1
  minute-GoesOn {r} n m =
      let (_, at, sec, hour, day) = m.changed in
      let less = SameOr0-le r.1.sec m.from.sec sec in
      elim (Bool-cases m.wrapped) [
        | inl w ↦
            let (c, z) = m.origin.3 w in
            (
              omega (arith, c, z, at, day, hour, less, m.origin.1, n.sec, n.min),
              omega (arith, c, z, at, day, hour, less, m.origin.1, m.inside),
            )
        | inr d ↦
            let (e, h) = m.ahead d in
            let day' = ap day_of e in
            let hour' = ap (λ t. t.hour) e in
            (
              omega (arith, h, at, day, hour, less, day', hour', m.origin.1, n.sec),
              omega (arith, h, at, day, hour, less, day', hour', m.origin.1, m.inside),
            )
      ]

  pub hour-GoesOn :
      {target : Bits} {r : ℕ × Tm}
      → IsNormal date
      → Moved 24 target date date.hour BeforeHour AfterHour r
      → GoesOn 172800 r.1
  hour-GoesOn {r} n m =
      let (_, at, sec, min, day) = m.changed in
      let less = SameOr0-le r.1.sec m.from.sec sec in
      let less' = SameOr0-le r.1.min m.from.min min in
      elim (Bool-cases m.wrapped) [
        | inl w ↦
            let (c, z) = m.origin.4 w in
            (
              omega
                  (arith, c, z, at, day, less, less', m.origin.1, m.origin.2, n.sec, n.min, n.hour),
              omega (arith, c, z, at, day, less, less', m.origin.1, m.origin.2, m.inside),
            )
        | inr d ↦
            let (e, h) = m.ahead d in
            let day' = ap day_of e in
            (
              omega (arith, h, at, day, less, less', day', m.origin.1, m.origin.2, n.sec, n.min),
              omega (arith, h, at, day, less, less', day', m.origin.1, m.origin.2, m.inside),
            )
      ]
