-- ===== src/Cron/Next.antt =====
-- `find_next` and `cron_next` of include/dmcroncpp.h.
pub mod SetBit
pub mod Regular
pub mod Changes
pub mod Resets
pub mod Parts
pub mod Moves
pub mod Daily
pub mod Ends
pub mod Answer
use dmtimer.Base.{
  ℕ, zero, suc, ◌+◌, ◌-◌, ◌%◌, ◌^◌, Bool, true, false, not, ◌||◌, Option, none, some, List, ltb,
  ◌==◌, if◌then◌else◌, sub64, Outcome, done, stopped, thrown, out_of_range, out_of_fuel, ◌>>=◌,
}
use dmtimer.Cron.{Traits, Bits, CronExpr}
use dmtimer.Cron.Date.{
  Tm, zero_tm, Calendar, invalid_time, invalid_index, CronField, second, minute, hour_of_day,
  day_of_week, day_of_month, month, year, Marks, mark_field, add_to_field, set_field, reset_field,
  reset_all_fields,
}

-- the loop of `next_set_bit`: `n` bits are left from `i` on
unfoldable pub set_bit_from : ℕ → ℕ → Bits → ℕ
set_bit_from zero i target = invalid_index
set_bit_from (suc n) i target =
    let rest = set_bit_from n (i + 1) target in if target i then i else rest

-- `next_set_bit`
unfoldable pub next_set_bit : ℕ → Bits → ℕ → ℕ
next_set_bit N target offset = set_bit_from (N - offset) offset target

-- `std::bitset<N>::test`
unfoldable pub test_bit : ℕ → Bits → ℕ → Outcome Bool
test_bit N target i = if ltb i N then done (target i) else stopped out_of_range

-- an `int` as a `size_t`
abbrev pub sign_extend : ℕ → ℕ
sign_extend x = if ltb x (2 ^ 31) then x else x + (2 ^ 64 - 2 ^ 32)

abbrev pub no_marks : Marks
no_marks i = false

-- the field is marked when its value stays
unfoldable pub mark_if : Bool → Marks → CronField → Marks
mark_if true marked field = mark_field marked field
mark_if false marked field = marked

-- What the caller does with the result of a recursive call: `false` is returned at once.
unfoldable pub proceed : Outcome (Bool × Tm) → (Tm → Outcome (Bool × Tm)) → Outcome (Bool × Tm)
proceed m rest = do (res, date) ← m; elim res [ true ↦ rest date | false ↦ done (false, date) ]

-- the recursive call, unless the value of the field stays
unfoldable pub again_unless : Bool → (Tm → Outcome (Bool × Tm)) → Tm → Outcome (Bool × Tm)
again_unless true rec date = done (true, date)
again_unless false rec date = rec date

module _ (cal : Calendar) where
  -- what follows when no bit is set from the value on: the next field is advanced
  unfoldable pub wrap_field : ℕ → Bits → ℕ → CronField → CronField → Tm → Outcome (ℕ × Tm)
  wrap_field N target next_value field next_field date =
      if next_value == invalid_index
      then (do
        d1 ← add_to_field cal date next_field 1
        d2 ← reset_field cal d1 field
        done (next_set_bit N target 0, d2))
      else done (next_value, date)

  -- `find_next` of one field
  unfoldable pub find_next_field :
      ℕ → Bits → Tm → ℕ → CronField → CronField → Marks → Outcome (ℕ × Tm)
  find_next_field N target date value field next_field marked = do
    (next_value, d) ← wrap_field N target (next_set_bit N target value) field next_field date
    if (next_value == invalid_index) || not (next_value == value)
        then (do
          d1 ← set_field cal d field (next_value % 2 ^ 32)
          d2 ← reset_all_fields cal d1 marked
          done (next_value, d2))
        else done (next_value, d)

  module _ (traits : Traits) where
    -- the condition of the loop of `find_next_day` but for the count
    unfoldable pub misses : CronExpr → ℕ → ℕ → Outcome Bool
    misses cex mday wday = do
      in_month ← test_bit 31 cex.days_of_month (sub64 mday traits.min_days_of_month)
      if in_month
          then (do
            in_week ← test_bit 7 cex.days_of_week (sub64 wday traits.min_days_of_week)
            done (not in_week))
          else done true

    -- the loop of `find_next_day`, with `n` rounds left
    unfoldable pub find_day : ℕ → CronExpr → Tm → ℕ → ℕ → Marks → Outcome (ℕ × Tm)
    find_day zero cex date mday wday marked = do miss ← misses cex mday wday; done (mday, date)
    find_day (suc n) cex date mday wday marked = do
      miss ← misses cex mday wday
      elim miss [
        | false ↦ done (mday, date)
        | true ↦ (do
          d1 ← add_to_field cal date day_of_month 1
          d2 ← reset_all_fields cal d1 marked
          find_day n cex d2 (sign_extend d1.mday) (sign_extend d1.wday) marked)
      ]

    -- `find_next_day`
    unfoldable pub find_next_day : CronExpr → Tm → ℕ → ℕ → Marks → Outcome (ℕ × Tm)
    find_next_day cex date mday wday marked = find_day 366 cex date mday wday marked

    module _ (cex : CronExpr) (dot : ℕ) where
      -- the part of `find_next` from the months on
      unfoldable pub months_on : (Tm → Outcome (Bool × Tm)) → Marks → Tm → Outcome (Bool × Tm)
      months_on rec marked date = do
        (updated, d) ← find_next_field 12 cex.months date date.mon month year marked
        if date.mon == updated
            then done (true, d)
            else if ltb traits.max_years_diff (sub64 (sign_extend d.year) dot)
            then done (false, d)
            else rec d

      -- from the days on
      unfoldable pub days_on : (Tm → Outcome (Bool × Tm)) → Marks → Tm → Outcome (Bool × Tm)
      days_on rec marked date = do
        (updated, d) ← find_next_day cex date date.mday date.wday marked
        proceed (again_unless (date.mday == updated) rec d)
            (months_on rec (mark_if (date.mday == updated) marked day_of_month))

      -- from the hours on
      unfoldable pub hours_on : (Tm → Outcome (Bool × Tm)) → Marks → Tm → Outcome (Bool × Tm)
      hours_on rec marked date = do
        (updated, d) ← find_next_field 24 cex.hours date date.hour hour_of_day day_of_week marked
        proceed (again_unless (date.hour == updated) rec d)
            (days_on rec (mark_if (date.hour == updated) marked hour_of_day))

      -- from the minutes on
      unfoldable pub minutes_on : (Tm → Outcome (Bool × Tm)) → Marks → Tm → Outcome (Bool × Tm)
      minutes_on rec marked date = do
        (updated, d) ← find_next_field 60 cex.minutes date date.min minute hour_of_day marked
        proceed (again_unless (date.min == updated) rec d)
            (hours_on rec (mark_if (date.min == updated) marked minute))

      -- one level of `find_next`, with its recursive call
      unfoldable pub find_level : (Tm → Outcome (Bool × Tm)) → Tm → Outcome (Bool × Tm)
      find_level rec date = do
        (updated, d) ← find_next_field 60 cex.seconds date date.sec second minute no_marks
        minutes_on rec (mark_if (date.sec == updated) no_marks second) d

      -- `find_next`; the fuel bounds the depth of the recursion
      unfoldable pub find_next : ℕ → Tm → Outcome (Bool × Tm)
      find_next zero date = stopped out_of_fuel
      find_next (suc fuel) date = find_level (find_next fuel) date

    -- `cron_next` of a date; `std::tm{}` when there is none
    unfoldable pub cron_next_tm : ℕ → CronExpr → Tm → Outcome Tm
    cron_next_tm fuel cex date =
        let (original, date0) = cal.mktime date in
        if original == invalid_time then done zero_tm else (do
          (found, d1) ← find_next cex (sign_extend date0.year) fuel date0
          if not found
              then done zero_tm
              else (let (calculated, d2) = cal.mktime d1 in
                  if calculated == invalid_time
                  then done zero_tm
                  else if calculated == original
                  then (do
                    d3 ← add_to_field cal d2 second 1
                    (found', d4) ← find_next cex (sign_extend d3.year) fuel d3
                    done (if found' then d4 else zero_tm))
                  else done d2))

    -- `cron_next` of a time
    unfoldable pub cron_next : ℕ → CronExpr → ℕ → Outcome ℕ
    cron_next fuel cex date = elim (cal.localtime date) [
      | none ↦ done invalid_time
      | some dt ↦
          let (original, date0) = cal.mktime dt in
          if original == invalid_time then done invalid_time else (do
            (found, d1) ← find_next cex (sign_extend date0.year) fuel date0
            if not found
                then done invalid_time
                else (let (calculated, d2) = cal.mktime d1 in
                    if calculated == invalid_time
                    then done calculated
                    else if calculated == original
                    then (do
                      d3 ← add_to_field cal d2 second 1
                      (found', d4) ← find_next cex (sign_extend d3.year) fuel d3
                      done (if found' then (cal.mktime d4).0 else invalid_time))
                    else done (cal.mktime d2).0))
    ]
