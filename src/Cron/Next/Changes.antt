-- ===== src/Cron/Next/Changes.antt =====
-- What the changes of a date do under a regular calendar.
use dmtimer.Base.{ℕ, ◌+◌, ◌%◌, ◌^◌, ◌≤◌, ◌<◌, ◌≡◌, refl, arith, Returns, Returns-mono}
use dmtimer.Cron.Date.{
  Tm, Calendar, second, minute, hour_of_day, day_of_week, with_field, plus_field, reset_value,
  settle, add_to_field, set_field, reset_field,
}
use dmtimer.Cron.Next.Regular.{IsNormal, IsRegular, day_start, clock, Has, settle-Settled}

module _ (cal : Calendar) {from limit : ℕ} (regular : IsRegular cal from limit) where
  abbrev day_of : Tm → ℕ
  day_of t = day_start regular.days t

  abbrev clock_of : Tm → ℕ
  clock_of t = clock regular.days t

  settle-Has :
      (t : Tm) (day : ℕ)
      → day_start regular.days t ≡ day
      → day + 86400 ≤ limit
      → t.sec < 60
      → t.min < 60
      → t.hour < 24
      → 1 ≤ t.mday
      → t.mday ≤ 31
      → t.mon < 12
      → Returns (Has regular.days day t.sec t.min t.hour) (settle cal t)
  settle-Has t day e room s m h d d' mo =
      Returns-mono
        (settle-Settled cal regular t
          (record {
            sec = omega (arith, s);
            min = omega (arith, m);
            hour = omega (arith, h);
            mday_from = d;
            mday_to = omega (arith, d');
            mon = mo;
          })
          (omega arith))
        λ r n. record {
          normal = n.normal;
          start = omega (arith, n.same, n.sec s, n.min s m, n.hour s m h);
          sec = n.sec s;
          min = n.min s m;
          hour = n.hour s m h;
        }

  pub set_second-Has :
      (t : Tm) (v : ℕ)
      → IsNormal t
      → day_of t + 86400 ≤ limit
      → v < 60
      → Returns (Has regular.days (day_of t) v t.min t.hour) (set_field cal t second v)
  unfolding set_field with_field day_start
  set_second-Has t v n room h =
      settle-Has (record t { sec = v }) _ refl (omega arith) h n.min n.hour n.mday_from n.mday_to
        n.mon

  pub set_minute-Has :
      (t : Tm) (v : ℕ)
      → IsNormal t
      → day_of t + 86400 ≤ limit
      → v < 60
      → Returns (Has regular.days (day_of t) t.sec v t.hour) (set_field cal t minute v)
  unfolding set_field with_field day_start
  set_minute-Has t v n room h =
      settle-Has (record t { min = v }) _ refl (omega arith) n.sec h n.hour n.mday_from n.mday_to
        n.mon

  pub set_hour-Has :
      (t : Tm) (v : ℕ)
      → IsNormal t
      → day_of t + 86400 ≤ limit
      → v < 24
      → Returns (Has regular.days (day_of t) t.sec t.min v) (set_field cal t hour_of_day v)
  unfolding set_field with_field day_start
  set_hour-Has t v n room h =
      settle-Has (record t { hour = v }) _ refl (omega arith) n.sec n.min h n.mday_from n.mday_to
        n.mon

  pub reset_second-Has :
      (t : Tm)
      → IsNormal t
      → day_of t + 86400 ≤ limit
      → Returns (Has regular.days (day_of t) 0 t.min t.hour) (reset_field cal t second)
  unfolding reset_field with_field reset_value day_start
  reset_second-Has t n room =
      settle-Has (record t { sec = 0 }) _ refl (omega arith) (omega arith) n.min n.hour n.mday_from
        n.mday_to n.mon

  pub reset_minute-Has :
      (t : Tm)
      → IsNormal t
      → day_of t + 86400 ≤ limit
      → Returns (Has regular.days (day_of t) t.sec 0 t.hour) (reset_field cal t minute)
  unfolding reset_field with_field reset_value day_start
  reset_minute-Has t n room =
      settle-Has (record t { min = 0 }) _ refl (omega arith) n.sec (omega arith) n.hour n.mday_from
        n.mday_to n.mon

  pub reset_hour-Has :
      (t : Tm)
      → IsNormal t
      → day_of t + 86400 ≤ limit
      → Returns (Has regular.days (day_of t) t.sec t.min 0) (reset_field cal t hour_of_day)
  unfolding reset_field with_field reset_value day_start
  reset_hour-Has t n room =
      settle-Has (record t { hour = 0 }) _ refl (omega arith) n.sec n.min (omega arith) n.mday_from
        n.mday_to n.mon

  pub add_second-Settled :
      (t : Tm)
      → IsNormal t
      → clock_of t + 86400 ≤ limit
      → Returns (λ r. IsNormal r × (clock_of r ≡ clock_of t + 1)) (add_to_field cal t second 1)
  unfolding add_to_field plus_field day_start
  add_second-Settled t n room =
      let e : (t.sec + 1) % 2 ^ 32 ≡ t.sec + 1 = omega (arith, n.sec) in
      Returns-mono
        (settle-Settled cal regular _
          (record {
            sec = rw e (omega (arith, n.sec));
            min = omega (arith, n.min);
            hour = omega (arith, n.hour);
            mday_from = n.mday_from;
            mday_to = omega (arith, n.mday_to);
            mon = n.mon;
          })
          (rw e (omega (arith, room))))
        λ r s. (s.normal, omega (arith, s.same, e))

  pub add_minute-Settled :
      (t : Tm)
      → IsNormal t
      → clock_of t + 86400 ≤ limit
      → Returns
          (λ r. IsNormal r × (r.sec ≡ t.sec) × (clock_of r ≡ clock_of t + 60))
          (add_to_field cal t minute 1)
  unfolding add_to_field plus_field day_start
  add_minute-Settled t n room =
      let e : (t.min + 1) % 2 ^ 32 ≡ t.min + 1 = omega (arith, n.min) in
      Returns-mono
        (settle-Settled cal regular _
          (record {
            sec = omega (arith, n.sec);
            min = rw e (omega (arith, n.min));
            hour = omega (arith, n.hour);
            mday_from = n.mday_from;
            mday_to = omega (arith, n.mday_to);
            mon = n.mon;
          })
          (rw e (omega (arith, room))))
        λ r s. (s.normal, s.sec n.sec, omega (arith, s.same, e))

  pub add_hour-Settled :
      (t : Tm)
      → IsNormal t
      → clock_of t + 86400 ≤ limit
      → Returns
          (λ r. IsNormal r × (r.sec ≡ t.sec) × (r.min ≡ t.min) × (clock_of r ≡ clock_of t + 3600))
          (add_to_field cal t hour_of_day 1)
  unfolding add_to_field plus_field day_start
  add_hour-Settled t n room =
      let e : (t.hour + 1) % 2 ^ 32 ≡ t.hour + 1 = omega (arith, n.hour) in
      Returns-mono
        (settle-Settled cal regular _
          (record {
            sec = omega (arith, n.sec);
            min = omega (arith, n.min);
            hour = rw e (omega (arith, n.hour));
            mday_from = n.mday_from;
            mday_to = omega (arith, n.mday_to);
            mon = n.mon;
          })
          (rw e (omega (arith, room))))
        λ r s. (s.normal, s.sec n.sec, s.min n.sec n.min, omega (arith, s.same, e))

  -- a day more, which `find_next` adds to the day of the month
  pub add_day-Has :
      (t : Tm)
      → IsNormal t
      → clock_of t + 172800 ≤ limit
      → Returns
          (Has regular.days (day_of t + 86400) t.sec t.min t.hour)
          (add_to_field cal t day_of_week 1)
  unfolding add_to_field plus_field day_start
  add_day-Has t n room =
      let e : (t.mday + 1) % 2 ^ 32 ≡ t.mday + 1 = omega (arith, n.mday_to) in
      let step =
        regular.next_day t.isdst t.year t.mon t.mday n.mday_from n.mday_to n.mon
          (omega (arith, room)) in
      Returns-mono
        (settle-Settled cal regular _
          (record {
            sec = omega (arith, n.sec);
            min = omega (arith, n.min);
            hour = omega (arith, n.hour);
            mday_from = rw e (omega arith);
            mday_to = rw e (omega (arith, n.mday_to));
            mon = n.mon;
          })
          (rw (e, step) (omega (arith, room))))
        λ r s. record {
          normal = s.normal;
          start = omega (
            arith,
            rw (e, step) at s.same,
            s.sec n.sec,
            s.min n.sec n.min,
            s.hour n.sec n.min n.hour,
          );
          sec = s.sec n.sec;
          min = s.min n.sec n.min;
          hour = s.hour n.sec n.min n.hour;
        }
