-- ===== src/Cron/Next/Answer.antt =====
-- `cron_next` for an expression without limits on days and months: it answers with the time of a date
-- that matches, later than the time that it is asked for.
use dmtimer.Base.{
  ◌>>=◌, done, if◌then◌else◌, ℕ, suc, ◌+◌, ◌<◌, ◌≤◌, ◌≡◌, refl, inl, inr, false, arith, some, ◌==◌,
  ==→eq, Bool-cases, Returns, returns, Returns-bind,
}
use dmtimer.Cron.{CronExpr, cron_standard_traits}
use dmtimer.Cron.Date.{Tm, Calendar, invalid_time}
use dmtimer.Cron.Next.{cron_next, find_next, sign_extend}
use dmtimer.Cron.Next.Regular.{
  IsNormal, normal-InReach, IsRegular, clock, mktime-valid, mktime-Settled,
}
use dmtimer.Cron.Next.Changes.{add_second-Settled}
use dmtimer.Cron.Next.Daily.{IsDaily, Matches}
use dmtimer.Cron.Next.Ends.{find_next-Found}

-- The time of a date that matches, after `date` and less than three days on.
pub record IsAnswer (cal : Calendar) (cex : CronExpr) (date time : ℕ) : Type 0 where
  pub answer : Tm
  pub matches : Matches cex answer
  pub at_answer : time ≡ (cal.mktime answer).0
  pub later : date < time
  pub soon : time < date + 200000

module _ (cal : Calendar) {from limit : ℕ} (regular : IsRegular cal from limit) where
  abbrev clock_of : Tm → ℕ
  clock_of t = clock regular.days t

  mktime-Matches :
      (cex : CronExpr) (d : Tm) → Matches cex d → clock_of d < limit → Matches cex (cal.mktime d).1
  mktime-Matches cex d m inside =
      let s = mktime-Settled cal regular d (normal-InReach d m.normal) inside in
      record {
        normal = s.normal;
        second = rw (s.sec m.normal.sec) m.second;
        minute = rw (s.min m.normal.sec m.normal.min) m.minute;
        hour = rw (s.hour m.normal.sec m.normal.min m.normal.hour) m.hour;
      }

  -- The search from the second after the time asked for.
  second_search :
      (cex : CronExpr) (fuel date : ℕ) (d : Tm)
      → IsDaily cex
      → IsNormal d
      → clock_of d ≡ date + 1
      → date + 400000 ≤ limit
      → Returns (IsAnswer cal cex date) (do
        (found, d') ←
            find_next cal cron_standard_traits cex
              (sign_extend d.year)
              (suc (suc (suc (suc fuel))))
              d
        done (if found then (cal.mktime d').0 else invalid_time))
  second_search cex fuel date d daily normal at room =
      Returns-bind
        (find_next-Found cal regular cex daily _ (date + 1) (date + 187681) (omega (arith, room))
          fuel d normal (omega (arith, at), omega (arith, at)))
        λ y g.
          let last =
            regular.time y.1 (normal-InReach y.1 g.1.0.normal) (omega (arith, room, g.1.1.1)) in
          rw g.0 (
            returns (record {
              answer = y.1;
              matches = g.1.0;
              at_answer = refl;
              later = omega (arith, last, g.1.1.0);
              soon = omega (arith, last, g.1.1.1);
            }))

  -- For an expression with every day and every month and at least one second, minute and hour,
  -- under the standard traits, `cron_next` of a time that has a local date returns, with four
  -- levels of recursion or more, the time of a date whose second, minute and hour are in the
  -- expression. The answer is later than the time asked for, and less than 200000 s later; it is
  -- never `INVALID_TIME` for want of a match, and no exception. This holds in any zone, if its
  -- clocks are not changed from the start of the day of the time asked for, or before, to a limit
  -- at least 400000 s after that time, and `mktime` and `localtime_r` go with the days and the
  -- clock of the zone, for dates with the zone's own `tm_isdst` (`IsRegular`).
  pub cron_next-IsAnswer :
      (cex : CronExpr) (fuel date : ℕ) (dt : Tm)
      → IsDaily cex
      → cal.localtime date ≡ some dt
      → from ≤ date
      → date + 400000 ≤ limit
      → Returns
          (IsAnswer cal cex date)
          (cron_next cal cron_standard_traits (suc (suc (suc (suc fuel)))) cex date)
  unfolding cron_next
  cron_next-IsAnswer cex fuel date dt daily local since room =
      let (n, at) = regular.local date dt local since (omega (arith, room)) in
      let reach = normal-InReach dt n in
      let start = mktime-Settled cal regular dt reach (omega (arith, room, at)) in
      let original = regular.time dt reach (omega (arith, room, at)) in
      rw (local, cron_next)
        (rw (mktime-valid cal regular dt reach (omega (arith, room, at))) (
          Returns-bind
            (find_next-Found cal regular cex daily _ date (date + 187680) (omega (arith, room)) fuel
              _ start.normal (omega (arith, start.same, at), omega (arith, start.same, at)))
            λ x f.
              let (m, (from, upto)) = f.1 in
              let reach' = normal-InReach x.1 m.normal in
              let inside : clock_of x.1 < limit = omega (arith, room, upto) in
              let again = mktime-Settled cal regular x.1 reach' inside in
              let calculated = regular.time x.1 reach' inside in
              let m' = mktime-Matches cex x.1 m inside in
              let result =
                regular.time (cal.mktime x.1).1 (normal-InReach _ again.normal)
                  (omega (arith, again.same, inside)) in
              rw (f.0, mktime-valid cal regular x.1 reach' inside)
                (elim (Bool-cases ((cal.mktime x.1).0 == (cal.mktime dt).0)) [
                  | inl e ↦
                      let same = ==→eq _ _ e in
                      rw e (
                        Returns-bind
                          (add_second-Settled cal regular _ again.normal
                            (omega (arith, room, upto, again.same)))
                          λ d k.
                            second_search cex fuel date d daily k.0
                              (omega (arith, k.1, again.same, calculated, original, same, at)) room)
                  | inr ne ↦
                      let other : (clock_of x.1 == date) ≡ false =
                        ground (arith, ne, calculated, original, at) in
                      rw ne (
                        returns (record {
                          answer = (cal.mktime x.1).1;
                          matches = m';
                          at_answer = refl;
                          later = ground (arith, result, again.same, other, from);
                          soon = omega (arith, result, again.same, upto);
                        }))
                ])))
