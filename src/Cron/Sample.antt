-- ===== src/Cron/Sample.antt =====
-- A calendar whose months all have 31 days, in years of 12 months, for the tests.
use dmtimer.Base.{
  ap, sym, ◌∙◌, leb, ◌==◌, if◌then◌else◌, ◌≤◌, ◌<◌, true, ℕ, ◌+◌, ◌-◌, ◌*◌, ◌/◌, ◌%◌, ◌^◌, ◌≡◌,
  refl, arith, some,
}
use mathlib.Core.Bool.{◌&&◌}
use mathlib.Core.Option.{some-injective}
use mathlib.Core.Path.{subst}
use dmtimer.Cron.Date.{Tm, Calendar}
use dmtimer.Cron.Next.Regular.{Days, IsNormal, IsRegular, day_start, clock}

abbrev month_start : ℕ → ℕ → ℕ
month_start year mon = (year * 372 + mon * 31) * 86400

abbrev pub seconds_of : Tm → ℕ
seconds_of t =
    month_start t.year t.mon + (t.mday - 1) * 86400 + (t.sec + 60 * t.min + 3600 * t.hour)

abbrev pub date_of : ℕ → Tm
date_of s = record {
  sec = s % 60;
  min = s / 60 % 60;
  hour = s / 3600 % 24;
  mday = s / 86400 % 31 + 1;
  mon = s / (86400 * 31) % 12;
  year = s / (86400 * 372);
  wday = s / 86400 % 7;
  yday = s / 86400 % 372;
  isdst = 0;
}

abbrev pub cal : Calendar
cal = record {
  mktime = λ t. (seconds_of t, date_of (seconds_of t));
  localtime = λ t. some (date_of t);
}

in_order : (s : ℕ) → IsNormal (date_of s)
in_order s = record {
  sec = omega arith;
  min = omega arith;
  hour = omega arith;
  mday_from = omega arith;
  mday_to = omega arith;
  mon = omega arith;
  wday = omega arith;
}

seconds_of-date_of : (s : ℕ) → seconds_of (date_of s) ≡ s
seconds_of-date_of s = omega arith

-- the start of a day, by the clock of the zone
abbrev midnight : ℕ → ℕ → ℕ → ℕ
midnight year mon mday = month_start year mon + (mday - 1) * 86400

pub cal-IsRegular : IsRegular cal 0 (2 ^ 40)
unfolding day_start
cal-IsRegular = record {
  days = λ dst. midnight;
  limited = omega arith;
  next_day = λ dst year mon mday one last h inside. omega (arith, one);
  time = λ t reach inside. refl;
  normal = λ t reach inside. in_order (seconds_of t);
  same = λ t reach inside. seconds_of-date_of (seconds_of t);
  keeps_sec = λ t reach inside s. omega arith;
  keeps_min = λ t reach inside s m. omega arith;
  keeps_hour = λ t reach inside s m h. omega arith;
  local = λ date t e since inside.
      subst (λ v. IsNormal v × (clock (λ dst. midnight) v ≡ date)) (some-injective _ _ e)
        (in_order date, seconds_of-date_of date);
}

-- A zone two hours ahead in summer, and one hour ahead for a date that says that it is not summer.
abbrev pub summer_of : ℕ → Tm
summer_of s = record (date_of s) { isdst = 1 }

abbrev pub summer : Calendar
summer = record {
  mktime = λ t.
      if t.isdst == 1
      then (seconds_of t - 7200, summer_of (seconds_of t))
      else (seconds_of t - 3600, summer_of (seconds_of t + 3600));
  localtime = λ s. some (summer_of (s + 7200));
}

abbrev summer_days : Days
summer_days dst year mon mday =
    if (dst == 1) && leb 86400 (midnight year mon mday)
    then midnight year mon mday - 7200
    else 2 ^ 40

-- a date of the time that is regular
inside-summer :
    (t : Tm)
    → clock summer_days t < 2 ^ 40
    → ((t.isdst == 1) ≡ true) × (86400 ≤ midnight t.year t.mon t.mday)
unfolding day_start
inside-summer t inside = (ground (arith, inside), ground (arith, inside))

summer_days-late :
    (dst year mon mday : ℕ)
    → (dst == 1) ≡ true
    → 86400 ≤ midnight year mon mday
    → summer_days dst year mon mday ≡ midnight year mon mday - 7200
summer_days-late dst year mon mday is_summer day =
    let late : leb 86400 (midnight year mon mday) ≡ true = ground (arith, day) in
    rw (is_summer, late) refl

clock-inside : (t : Tm) → clock summer_days t < 2 ^ 40 → clock summer_days t ≡ seconds_of t - 7200
unfolding day_start
clock-inside t inside =
    let (dst, day) = inside-summer t inside in
    let start = summer_days-late t.isdst t.year t.mon t.mday dst day in omega (arith, start, day)

clock-summer_of : (s : ℕ) → 86400 ≤ s → clock summer_days (summer_of s) ≡ s - 7200
unfolding day_start
clock-summer_of s h =
    let date = summer_of s in
    let back = seconds_of-date_of s in
    let day : 86400 ≤ midnight date.year date.mon date.mday = omega (arith, h) in
    let start = summer_days-late 1 date.year date.mon date.mday refl day in
    omega (arith, start, day, back)

mktime-summer :
    (t : Tm)
    → (t.isdst == 1) ≡ true
    → summer.mktime t ≡ (seconds_of t - 7200, summer_of (seconds_of t))
mktime-summer t dst = rw dst refl

pub summer-IsRegular : IsRegular summer 86400 (2 ^ 40)
unfolding day_start
summer-IsRegular = record {
  days = summer_days;
  limited = omega arith;
  next_day = λ dst year mon mday one last h inside. ground (arith, one, inside);
  time = λ t reach inside.
      let (dst, day) = inside-summer t inside in
      ap (λ r. r.0) (mktime-summer t dst) ∙ sym (clock-inside t inside);
  normal = λ t reach inside.
      let (dst, day) = inside-summer t inside in rw dst (in_order_of (seconds_of t));
  same = λ t reach inside.
      let (dst, day) = inside-summer t inside in
      ap (λ r. clock summer_days r.1) (mktime-summer t dst)
      ∙ clock-summer_of (seconds_of t) (omega (arith, day))
      ∙ sym (clock-inside t inside);
  keeps_sec =
      λ t reach inside s. let (dst, day) = inside-summer t inside in rw dst (omega (arith, s));
  keeps_min =
      λ t reach inside s m. let (dst, day) = inside-summer t inside in rw dst (omega (arith, s, m));
  keeps_hour = λ t reach inside s m h.
      let (dst, day) = inside-summer t inside in rw dst (omega (arith, s, m, h));
  local = λ date t e since inside.
      subst (λ v. IsNormal v × (clock summer_days v ≡ date)) (some-injective _ _ e)
        (
          in_order_of (date + 7200),
          clock-summer_of (date + 7200) (omega (arith, since)) ∙ omega arith,
        );
}
  where
    in_order_of : (s : ℕ) → IsNormal (summer_of s)
    in_order_of s =
        let n = in_order s in
        record {
          sec = n.sec;
          min = n.min;
          hour = n.hour;
          mday_from = n.mday_from;
          mday_to = n.mday_to;
          mon = n.mon;
          wday = n.wday;
        }
