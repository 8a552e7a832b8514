-- ===== src/Cron/Next/Ends.antt =====
-- The recursion of `find_next` ends, for an expression without limits on days and months: a level is
-- entered with more of the date's parts in the expression, or with set bits ahead of them. The date goes on at every move, by less than 187680 seconds in all.
use dmtimer.Base.{
  ℕ, suc, ◌+◌, ◌≤◌, ◌<◌, ◌≡◌, refl, inl, inr, Bool, true, false, arith, ==_self, Outcome, Returns,
  returns, Returns-bind,
}
use dmtimer.Cron.{CronExpr, cron_standard_traits}
use dmtimer.Cron.Date.{
  Tm, Calendar, CronField, second, minute, hour_of_day, field_no, Marks, mark_field,
}
use dmtimer.Cron.Next.{
  no_marks, mark_if, proceed, again_unless, days_on, hours_on, minutes_on, find_level, find_next,
}
use dmtimer.Cron.Next.Regular.{Days, IsNormal, IsRegular, clock}
use dmtimer.Cron.Next.Moves.{
  SameOr0, second_moved, minute_moved, hour_moved, second-GoesOn, minute-GoesOn, hour-GoesOn,
}
use dmtimer.Cron.Next.Daily.{
  IsDaily, Matches, Later, Later-SameOr0, find_next_field-stays, days_on-good, hours_on-good,
}

-- no mark from field `k` on
abbrev Low : ℕ → Marks → Type 0
Low k marked = (i : ℕ) → k ≤ i → marked i ≡ false

mark_if-Low :
    {k : ℕ} (b : Bool) (field : CronField) (marked : Marks)
    → field_no field < k
    → Low k marked
    → Low k (mark_if b marked field)
unfolding mark_if mark_field
mark_if-Low true field marked small low i h = ground (arith, low i h)
mark_if-Low false field marked small low i h = low i h

Low-suc : {k : ℕ} (marked : Marks) → Low k marked → Low (suc k) marked
Low-suc marked low i h = low i (omega arith)

module _ (days : Days) (cex : CronExpr) (lo hi : ℕ) where
  -- The date is not before `lo`, and `left` seconds before `hi` at least.
  abbrev pub Within : ℕ → Tm → Type 0
  Within left d = (lo ≤ clock days d) × (clock days d + left ≤ hi)

  abbrev Good : Tm → Type 0
  Good d = Matches cex d × Within 0 d

  -- The search ended with `true`, at a date that matches.
  abbrev pub Found : Bool × Tm → Type 0
  Found r = (r.0 ≡ true) × Good r.1

  -- a recursive call and what follows
  proceed-Found :
      (rest : Tm → Outcome (Bool × Tm)) {m : Outcome (Bool × Tm)}
      → Returns Found m
      → ((r : Tm) → Good r → Returns Found (rest r))
      → Returns Found (proceed m rest)
  unfolding proceed
  proceed-Found rest found after = Returns-bind found λ r f. rw f.0 (after r.1 f.1)

module _ (cal : Calendar) {from limit : ℕ} (regular : IsRegular cal from limit) (cex : CronExpr)
    (daily : IsDaily cex) (dot lo hi : ℕ) (room : hi + 172800 ≤ limit) where
  abbrev At : ℕ → Tm → Type 0
  At left d = Within regular.days cex lo hi left d

  abbrev Finds : Outcome (Bool × Tm) → Type 0
  Finds m = Returns (Found regular.days cex lo hi) m

  module _ (rec : Tm → Outcome (Bool × Tm)) where
    after_days :
        (marked : Marks) (r : Tm)
        → Good regular.days cex lo hi r
        → Finds (days_on cal cron_standard_traits cex dot rec marked r)
    after_days marked r g =
        rw (days_on-good cal cex daily dot rec marked r g.0.normal) (returns (refl, g))

    after_hours :
        (marked : Marks) (r : Tm)
        → Good regular.days cex lo hi r
        → Finds (hours_on cal cron_standard_traits cex dot rec marked r)
    after_hours marked r g =
        rw (hours_on-good cal cex daily dot rec marked r g.0.normal g.0.hour) (returns (refl, g))

    hours_stage :
        (marked : Marks) (d : Tm) (left : ℕ)
        → Low 2 marked
        → IsNormal d
        → At (172800 + left) d
        → cex.seconds d.sec ≡ true
        → cex.minutes d.min ≡ true
        → ((r : Tm)
            → IsNormal r
            → At left r
            → cex.hours r.hour ≡ true
            → Later 60 cex.seconds r.sec
            → Later 60 cex.minutes r.min
            → Finds (rec r))
        → Finds (hours_on cal cron_standard_traits cex dot rec marked d)
    unfolding hours_on again_unless proceed
    hours_stage marked d left low n at sec min again =
        Returns-bind (hour_moved cal regular d marked n (omega (arith, room, at.1)) daily.hours low)
          λ r s. elim s [
            | inl (e, is_set) ↦
                rw (e, ==_self d.hour)
                  (after_days _ d (
                    record { normal = n; second = sec; minute = min; hour = is_set },
                    (at.0, omega (arith, at.1)),
                  ))
            | inr m ↦
                let on = hour-GoesOn cal regular d n m in
                rw m.differs (
                  proceed-Found regular.days cex lo hi _
                    (again r.1 m.changed.0 (omega (arith, on.0, at.0), omega (arith, on.1, at.1))
                      (rw m.changed.1 m.is_set)
                      (Later-SameOr0 r.1.sec d.sec daily.seconds n.sec sec
                        (rw m.origin.1 at m.changed.2))
                      (Later-SameOr0 r.1.min d.min daily.minutes n.min min
                        (rw m.origin.2 at m.changed.3)))
                    (after_days _))
          ]

    minutes_stage :
        (marked : Marks) (d : Tm) (left : ℕ)
        → Low 1 marked
        → IsNormal d
        → At (7200 + left) d
        → ((r : Tm)
            → IsNormal r
            → At left r
            → cex.minutes r.min ≡ true
            → SameOr0 r.sec d.sec
            → (Later 60 cex.minutes d.min → r.hour ≡ d.hour)
            → Finds (rec r))
        → (cex.minutes d.min ≡ true
            → (m : Marks) → Low 2 m
            → Finds (hours_on cal cron_standard_traits cex dot rec m d))
        → Finds (minutes_on cal cron_standard_traits cex dot rec marked d)
    unfolding minutes_on again_unless proceed
    minutes_stage marked d left low n at again stays =
        Returns-bind
          (minute_moved cal regular d marked n (omega (arith, room, at.1)) daily.minutes low)
          λ r s. elim s [
            | inl (e, is_set) ↦
                rw (e, ==_self d.min)
                  (stays is_set _ (mark_if-Low _ minute marked (omega arith) (Low-suc marked low)))
            | inr m ↦
                let on = minute-GoesOn cal regular d n m in
                rw m.differs (
                  proceed-Found regular.days cex lo hi _
                    (again r.1 m.changed.0 (omega (arith, on.0, at.0), omega (arith, on.1, at.1))
                      (rw m.changed.1 m.is_set) (rw m.origin.1 at m.changed.2)
                      λ l. rw (m.ahead (m.direct l.at l.from_v l.inside l.is_set)).0 at m.changed.3)
                    (after_hours _))
          ]

    seconds_stage :
        (d : Tm) (left : ℕ)
        → IsNormal d
        → At (120 + left) d
        → ((m : Marks) (r : Tm)
            → Low 1 m
            → IsNormal r
            → At left r
            → cex.seconds r.sec ≡ true
            → (Later 60 cex.seconds d.sec → (r.min ≡ d.min) × (r.hour ≡ d.hour))
            → Finds (minutes_on cal cron_standard_traits cex dot rec m r))
        → Finds (find_level cal cron_standard_traits cex dot rec d)
    unfolding find_level
    seconds_stage d left n at next =
        Returns-bind (second_moved cal regular d n (omega (arith, room, at.1)) daily.seconds) λ r s.
          elim s [
            | inl (e, is_set) ↦
                rw (e, ==_self d.sec)
                  (next _ d (mark_if-Low _ second no_marks (omega arith) λ i h. refl) n
                    (at.0, omega (arith, at.1)) is_set λ l. (refl, refl))
            | inr m ↦
                let on = second-GoesOn cal regular d n m in
                rw m.differs (
                  next _ r.1 (mark_if-Low _ second no_marks (omega arith) λ i h. refl)
                    m.changed.normal (omega (arith, on.0, at.0), omega (arith, on.1, at.1))
                    (rw m.changed.sec m.is_set)
                    λ l.
                      let same = (m.ahead (m.direct l.at l.from_v l.inside l.is_set)).0 in
                      (rw same at m.changed.min, rw same at m.changed.hour))
          ]

    minutes_stay :
        (marked : Marks) (d : Tm)
        → Low 1 marked
        → IsNormal d
        → cex.minutes d.min ≡ true
        → ((m : Marks) → Low 2 m → Finds (hours_on cal cron_standard_traits cex dot rec m d))
        → Finds (minutes_on cal cron_standard_traits cex dot rec marked d)
    unfolding minutes_on again_unless proceed
    minutes_stay marked d low n is_set next =
        rw
          (
            find_next_field-stays cal 60 cex.minutes d d.min minute hour_of_day marked (omega arith)
                n.min is_set,
            ==_self d.min,
          )
          (next _ (mark_if-Low _ minute marked (omega arith) (Low-suc marked low)))

    -- the minute and the hour match
    level3 :
        (d : Tm)
        → IsNormal d
        → At 120 d
        → cex.hours d.hour ≡ true
        → cex.minutes d.min ≡ true
        → Later 60 cex.seconds d.sec
        → Finds (find_level cal cron_standard_traits cex dot rec d)
    level3 d n at hour min later = seconds_stage d 0 n at λ m r low k at' sec same.
        let e = same later in
        let is_minute : cex.minutes r.min ≡ true = rw e.0 min in
        let is_hour : cex.hours r.hour ≡ true = rw e.1 hour in
        minutes_stay m r low k is_minute λ m' low'.
          after_hours m' r
            (record { normal = k; second = sec; minute = is_minute; hour = is_hour }, at')

  -- the hour matches
  level2 :
      (fuel : ℕ) (d : Tm)
      → IsNormal d
      → At 7440 d
      → cex.hours d.hour ≡ true
      → Later 60 cex.seconds d.sec
      → Later 60 cex.minutes d.min
      → Finds (find_next cal cron_standard_traits cex dot (suc (suc fuel)) d)
  unfolding find_next
  level2 fuel d n at hour from min = seconds_stage _ d 7320 n at λ m r low k at' sec same_at.
      let e = same_at from in
      let is_hour : cex.hours r.hour ≡ true = rw e.1 hour in
      minutes_stage _ m r 120 low k at'
        (λ q normal at'' is_minute before keeps.
          level3 _ q normal at'' (rw (keeps (rw e.0 min)) is_hour) is_minute
            (Later-SameOr0 q.sec r.sec daily.seconds k.sec sec before))
        λ is_minute m' low'. after_hours _ m' r (
          record { normal = k; second = sec; minute = is_minute; hour = is_hour },
          (at'.0, omega (arith, at'.1)),
        )

  -- the minute matches
  level1 :
      (fuel : ℕ) (d : Tm)
      → IsNormal d
      → At 180360 d
      → cex.minutes d.min ≡ true
      → Later 60 cex.seconds d.sec
      → Finds (find_next cal cron_standard_traits cex dot (suc (suc (suc fuel))) d)
  unfolding find_next
  level1 fuel d n at min from = seconds_stage _ d 180240 n at λ m r low k at' sec same_at.
      let is_minute : cex.minutes r.min ≡ true = rw ((same_at from).0) min in
      minutes_stay _ m r low k is_minute
        λ m' low'. hours_stage _ m' r 7440 low' k at' sec is_minute (level2 fuel)

  -- any date
  pub find_next-Found :
      (fuel : ℕ) (d : Tm)
      → IsNormal d
      → At 187680 d
      → Finds (find_next cal cron_standard_traits cex dot (suc (suc (suc (suc fuel)))) d)
  unfolding find_next
  find_next-Found fuel d n at = seconds_stage _ d 187560 n at λ m r low k at' sec same_at.
      minutes_stage _ m r 180360 low k at'
        (λ q normal at'' is_minute before keeps.
          level1 fuel q normal at'' is_minute
            (Later-SameOr0 q.sec r.sec daily.seconds k.sec sec before))
        λ is_minute m' low'.
          hours_stage _ m' r 7440 low' k (at'.0, omega (arith, at'.1)) sec is_minute
            (level2 (suc fuel))
