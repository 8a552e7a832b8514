-- ===== src/Cron/Date.antt =====
-- The broken-down time of include/dmcroncpp.h: `std::tm`, and the functions that change one of its fields.
-- An `int` is its 32 bits, a `time_t` and a `size_t` their 64 bits. `std::mktime` and `localtime_r` are
-- the parameter `Calendar`.
use dmtimer.Base.{
  ℕ, ◌+◌, ◌-◌, ◌%◌, ◌^◌, Bool, true, false, Option, List, [], ◌∷◌, ◌==◌, if◌then◌else◌, Outcome,
  done, stopped, thrown, ◌>>=◌,
}

pub record Tm : Type 0 where
  pub sec : ℕ
  pub min : ℕ
  pub hour : ℕ
  pub mday : ℕ
  pub mon : ℕ
  pub year : ℕ
  pub wday : ℕ
  pub yday : ℕ
  pub isdst : ℕ

-- `std::tm{}`
abbrev pub zero_tm : Tm
zero_tm = record {
  sec = 0;
  min = 0;
  hour = 0;
  mday = 0;
  mon = 0;
  year = 0;
  wday = 0;
  yday = 0;
  isdst = 0;
}

-- `std::mktime`: the time, and the date as it leaves it; `localtime_r`: `none` is a null pointer
pub record Calendar : Type 0 where
  pub mktime : Tm → ℕ × Tm
  pub localtime : ℕ → Option Tm

abbrev pub invalid_time : ℕ
invalid_time = 2 ^ 64 - 1

abbrev pub invalid_index : ℕ
invalid_index = 2 ^ 64 - 1

-- `cron_field`
pub data CronField : Type 0 where
  second minute hour_of_day day_of_week day_of_month month year : CronField

abbrev pub add32 : ℕ → ℕ → ℕ
add32 a b = (a + b) % 2 ^ 32

unfoldable pub with_field : Tm → CronField → ℕ → Tm
with_field date second val = record date { sec = val }
with_field date minute val = record date { min = val }
with_field date hour_of_day val = record date { hour = val }
with_field date day_of_week val = record date { wday = val }
with_field date day_of_month val = record date { mday = val }
with_field date month val = record date { mon = val }
with_field date year val = record date { year = val }

-- the switch of `add_to_field`: a day of the week adds to the day of the month
unfoldable pub plus_field : Tm → CronField → ℕ → Tm
plus_field date second val = record date { sec = add32 date.sec val }
plus_field date minute val = record date { min = add32 date.min val }
plus_field date hour_of_day val = record date { hour = add32 date.hour val }
plus_field date day_of_week val = record date { mday = add32 date.mday val }
plus_field date day_of_month val = record date { mday = add32 date.mday val }
plus_field date month val = record date { mon = add32 date.mon val }
plus_field date year val = record date { year = add32 date.year val }

-- what `reset_field` assigns
unfoldable pub reset_value : CronField → ℕ
reset_value day_of_month = 1
reset_value _ = 0

abbrev pub all_fields : List CronField
all_fields = second ∷ minute ∷ hour_of_day ∷ day_of_week ∷ day_of_month ∷ month ∷ year ∷ []

abbrev pub field_no : CronField → ℕ
field_no second = 0
field_no minute = 1
field_no hour_of_day = 2
field_no day_of_week = 3
field_no day_of_month = 4
field_no month = 5
field_no year = 6

-- the marks of a `std::bitset<7>`, by the number of the field
abbrev pub Marks : Type 0
Marks = ℕ → Bool

-- `mark_field`
unfoldable pub mark_field : Marks → CronField → Marks
mark_field orders field i = if i == field_no field then true else orders i

module _ (cal : Calendar) where
  -- the end of `add_to_field`, `set_field` and `reset_field`: `mktime` puts the date in order
  unfoldable pub settle : Tm → Outcome Tm
  settle date =
      let (time, date') = cal.mktime date in
      if time == invalid_time then stopped thrown else done date'

  -- `add_to_field`
  unfoldable pub add_to_field : Tm → CronField → ℕ → Outcome Tm
  add_to_field date field val = settle (plus_field date field val)

  -- `set_field`
  unfoldable pub set_field : Tm → CronField → ℕ → Outcome Tm
  set_field date field val = settle (with_field date field val)

  -- `reset_field`
  unfoldable pub reset_field : Tm → CronField → Outcome Tm
  reset_field date field = settle (with_field date field (reset_value field))

  -- the loop of `reset_all_fields`
  unfoldable pub reset_fields : List CronField → Tm → Marks → Outcome Tm
  reset_fields [] date marked = done date
  reset_fields (f ∷ fs) date marked = elim (marked (field_no f)) [
    | true ↦ (do d ← reset_field date f; reset_fields fs d marked)
    | false ↦ reset_fields fs date marked
  ]

  -- `reset_all_fields`
  unfoldable pub reset_all_fields : Tm → Marks → Outcome Tm
  reset_all_fields date marked = reset_fields all_fields date marked
