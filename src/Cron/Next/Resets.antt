-- ===== src/Cron/Next/Resets.antt =====
-- `reset_all_fields` of the marks on the second, the minute and the hour, under a regular calendar.
use dmtimer.Base.{
  ℕ, ◌+◌, ◌≤◌, ◌≡◌, refl, ap, ◌∙◌, inl, inr, Bool, false, arith, if◌then◌else◌, Bool-cases, [], ◌∷◌,
  Returns, returns, Returns-bind, Returns-mono,
}
use dmtimer.Cron.Date.{
  Tm, Calendar, minute, hour_of_day, day_of_week, day_of_month, month, year, Marks, reset_fields,
  reset_all_fields,
}
use dmtimer.Cron.Next.Regular.{IsNormal, IsRegular, day_start, Has}
use dmtimer.Cron.Next.Changes.{reset_second-Has, reset_minute-Has, reset_hour-Has}

module _ (cal : Calendar) {from limit : ℕ} (regular : IsRegular cal from limit) (marked : Marks)
    (low : (i : ℕ) → 3 ≤ i → marked i ≡ false) where
  abbrev zero_if : Bool → ℕ → ℕ
  zero_if b v = if b then 0 else v

  from_hour :
      (t : Tm)
      → IsNormal t
      → day_start regular.days t + 86400 ≤ limit
      → Returns
          (Has regular.days (day_start regular.days t) t.sec t.min (zero_if (marked 2) t.hour))
          (reset_fields cal (hour_of_day ∷ day_of_week ∷ day_of_month ∷ month ∷ year ∷ []) t marked)
  unfolding reset_fields
  from_hour t n room = elim (Bool-cases (marked 2)) [
    | inl e ↦
        rw
          (
            e,
            low 3 (omega arith),
            low 4 (omega arith),
            low 5 (omega arith),
            low 6 (omega arith),
            reset_fields,
          )
          (Returns-bind (reset_hour-Has cal regular t n room) λ r h. returns h)
    | inr e ↦
        rw
          (
            e,
            low 3 (omega arith),
            low 4 (omega arith),
            low 5 (omega arith),
            low 6 (omega arith),
            reset_fields,
          )
          (returns (record { normal = n; start = refl; sec = refl; min = refl; hour = refl }))
  ]

  from_minute :
      (t : Tm)
      → IsNormal t
      → day_start regular.days t + 86400 ≤ limit
      → Returns
          (Has regular.days
            (day_start regular.days t)
            t.sec
            (zero_if (marked 1) t.min)
            (zero_if (marked 2) t.hour))
          (reset_fields cal
            (minute ∷ hour_of_day ∷ day_of_week ∷ day_of_month ∷ month ∷ year ∷ [])
            t
            marked)
  unfolding reset_fields
  from_minute t n room = elim (Bool-cases (marked 1)) [
    | inl e ↦
        rw (e, reset_fields)
          (Returns-bind (reset_minute-Has cal regular t n room) λ r h.
            Returns-mono (from_hour r h.normal (omega (arith, room, h.start))) λ q k. record {
              normal = k.normal;
              start = k.start ∙ h.start;
              sec = k.sec ∙ h.sec;
              min = k.min ∙ h.min;
              hour = k.hour ∙ ap (zero_if (marked 2)) h.hour;
            })
    | inr e ↦ rw (e, reset_fields) (from_hour t n room)
  ]

  -- Only the second, the minute and the hour are marked: they are set to 0, and the rest stays.
  pub reset_all_fields-Has :
      (t : Tm)
      → IsNormal t
      → day_start regular.days t + 86400 ≤ limit
      → Returns
          (Has regular.days
            (day_start regular.days t)
            (zero_if (marked 0) t.sec)
            (zero_if (marked 1) t.min)
            (zero_if (marked 2) t.hour))
          (reset_all_fields cal t marked)
  unfolding reset_all_fields reset_fields
  reset_all_fields-Has t n room = elim (Bool-cases (marked 0)) [
    | inl e ↦
        rw (e, reset_fields)
          (Returns-bind (reset_second-Has cal regular t n room) λ r h.
            Returns-mono (from_minute r h.normal (omega (arith, room, h.start))) λ q k. record {
              normal = k.normal;
              start = k.start ∙ h.start;
              sec = k.sec ∙ h.sec;
              min = k.min ∙ ap (zero_if (marked 1)) h.min;
              hour = k.hour ∙ ap (zero_if (marked 2)) h.hour;
            })
    | inr e ↦ rw (e, reset_fields) (from_minute t n room)
  ]
