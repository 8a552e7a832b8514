-- ===== src/Cron/Next/Regular.antt =====
-- What `find_next` relies on of `mktime` and `localtime_r`: the clocks of the zone, which may be any, are not changed
-- for some time.
use dmtimer.Base.{ℕ, ◌+◌, ◌*◌, ◌≤◌, ◌<◌, ◌≡◌, arith, some, ◌==◌, false, Returns, returns}
use dmtimer.Cron.Date.{Tm, Calendar, invalid_time, settle}

-- The fields of a date are in order.
pub record IsNormal (t : Tm) : Type 0 where
  pub sec : t.sec < 60
  pub min : t.min < 60
  pub hour : t.hour < 24
  pub mday_from : 1 ≤ t.mday
  pub mday_to : t.mday ≤ 31
  pub mon : t.mon < 12
  pub wday : t.wday < 7

-- One more second, minute, hour or day than a date in order has, at most; the day of the week does
-- not matter.
pub record InReach (t : Tm) : Type 0 where
  pub sec : t.sec ≤ 60
  pub min : t.min ≤ 60
  pub hour : t.hour ≤ 24
  pub mday_from : 1 ≤ t.mday
  pub mday_to : t.mday ≤ 32
  pub mon : t.mon < 12

pub normal-InReach : (t : Tm) → IsNormal t → InReach t
normal-InReach t n = record {
  sec = omega (arith, n.sec);
  min = omega (arith, n.min);
  hour = omega (arith, n.hour);
  mday_from = n.mday_from;
  mday_to = omega (arith, n.mday_to);
  mon = n.mon;
}

-- the seconds since the start of the day
abbrev pub time_of_day : Tm → ℕ
time_of_day t = t.sec + 60 * t.min + 3600 * t.hour

-- the time at which each day starts, by its `tm_isdst`, year, month and day
abbrev pub Days : Type 0
Days = ℕ → ℕ → ℕ → ℕ → ℕ

-- the start of the day
unfoldable pub day_start : Days → Tm → ℕ
day_start days t = days t.isdst t.year t.mon t.mday

abbrev pub clock : Days → Tm → ℕ
clock days t = day_start days t + time_of_day t

-- From the time `from` up to the time `limit` the clocks of the zone are not changed: the days of this time start at
-- the times `days`, by the zone's own clock and with its own `tm_isdst`, and have 86400 seconds each; any other day is
-- given a start behind the limit. For these days, `mktime` gives the time of a date, puts its fields in order, and
-- leaves the time of the day as far as it is in order; `localtime_r` gives the date of a time.
pub record IsRegular (cal : Calendar) (from limit : ℕ) : Type 0 where
  pub days : Days
  pub limited : limit ≤ invalid_time
  pub next_day :
      (dst year mon mday : ℕ)
      → 1 ≤ mday
      → mday ≤ 31
      → mon < 12
      → days dst year mon mday + 86400 < limit
      → days dst year mon (mday + 1) ≡ days dst year mon mday + 86400
  pub time : (t : Tm) → InReach t → clock days t < limit → (cal.mktime t).0 ≡ clock days t
  pub normal : (t : Tm) → InReach t → clock days t < limit → IsNormal (cal.mktime t).1
  pub same :
      (t : Tm) → InReach t → clock days t < limit → clock days (cal.mktime t).1 ≡ clock days t
  pub keeps_sec :
      (t : Tm) → InReach t → clock days t < limit → t.sec < 60 → (cal.mktime t).1.sec ≡ t.sec
  pub keeps_min :
      (t : Tm)
      → InReach t
      → clock days t < limit
      → t.sec < 60
      → t.min < 60
      → (cal.mktime t).1.min ≡ t.min
  pub keeps_hour :
      (t : Tm)
      → InReach t
      → clock days t < limit
      → t.sec < 60
      → t.min < 60
      → t.hour < 24
      → (cal.mktime t).1.hour ≡ t.hour
  pub local :
      (date : ℕ) (t : Tm)
      → cal.localtime date ≡ some t
      → from ≤ date
      → date < limit
      → IsNormal t × (clock days t ≡ date)

-- The date `r` is in order and has the time of `t`, the second of `t`, and its minute and hour as far as
-- these are.
pub record Settled (days : Days) (t r : Tm) : Type 0 where
  pub normal : IsNormal r
  pub same : clock days r ≡ clock days t
  pub sec : t.sec < 60 → r.sec ≡ t.sec
  pub min : t.sec < 60 → t.min < 60 → r.min ≡ t.min
  pub hour : t.sec < 60 → t.min < 60 → t.hour < 24 → r.hour ≡ t.hour

module _ (cal : Calendar) {from limit : ℕ} (regular : IsRegular cal from limit) where
  pub mktime-valid :
      (t : Tm)
      → InReach t
      → clock regular.days t < limit
      → ((cal.mktime t).0 == invalid_time) ≡ false
  mktime-valid t reach inside = ground (arith, regular.time t reach inside, regular.limited)

  pub mktime-Settled :
      (t : Tm) → InReach t → clock regular.days t < limit → Settled regular.days t (cal.mktime t).1
  mktime-Settled t reach inside = record {
    normal = regular.normal t reach inside;
    same = regular.same t reach inside;
    sec = regular.keeps_sec t reach inside;
    min = regular.keeps_min t reach inside;
    hour = regular.keeps_hour t reach inside;
  }

  pub settle-Settled :
      (t : Tm)
      → InReach t
      → clock regular.days t < limit
      → Returns (Settled regular.days t) (settle cal t)
  unfolding settle
  settle-Settled t reach inside =
      rw (mktime-valid t reach inside) (returns (mktime-Settled t reach inside))

-- A date in order with another second, minute or hour of the day that starts at `day`.
pub record Has (days : Days) (day s m h : ℕ) (r : Tm) : Type 0 where
  pub normal : IsNormal r
  pub start : day_start days r ≡ day
  pub sec : r.sec ≡ s
  pub min : r.min ≡ m
  pub hour : r.hour ≡ h
