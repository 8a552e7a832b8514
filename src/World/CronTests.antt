-- ===== src/World/CronTests.antt =====
-- The theorem on `SetTimerCron` applied to a concrete text, and the time that it is set for.
use dmtimer.Base.{ℕ, ◌-◌, ◌*◌, ◌≡◌, ◌≢◌, refl, true, some, List, done, stopped, arith}
use dmtimer.RapidPool.{
  DynamicRapidPool, make_dynamic_pool, make_pool, fetch_obj, fetch_slot, is_empty, located,
  put_default,
}
use dmtimer.Cron.{CronExpr, cron_standard_traits, codes}
use dmtimer.Cron.Text.{
  split, tokens, cons_first, c_str, to_cron_int, stoul, skip_space, is_space, is_digit, digits,
  magnitude, replace_ordinals, replace_from, replace_first, starts_with, drop, to_string, to_upper,
  upper, contains,
}
use dmtimer.Cron.Field.{
  is_only, ends_with, range_of, make_range, set_bit, set_bits, set_range, set_steps, set_one,
  set_all, set_cron_field, any_of, set_cron_days_of_week, set_cron_days_of_month, set_cron_month,
}
use dmtimer.Cron.Make.{make_cron, make_fields, remove_empty}
use dmtimer.Cron.Date.{
  settle, add_to_field, set_field, reset_field, reset_fields, reset_all_fields, with_field,
  plus_field, reset_value, mark_field,
}
use dmtimer.Cron.Next.{
  find_next, cron_next, find_level, minutes_on, hours_on, days_on, months_on, find_next_day,
  find_day, misses, find_next_field, wrap_field, next_set_bit, set_bit_from, test_bit, mark_if,
  proceed, again_unless,
}
use dmtimer.Cron.Sample.{cal, cal-IsRegular, date_of}
use dmtimer.Cron.Next.Answer.{IsAnswer}
use dmtimer.World.{World, new_element, get_boot_time, max_pool_s, max_pool_i}
use dmtimer.World.Map.{find}
use dmtimer.World.Node.{CronTimer, set_timer_cron}
use dmtimer.World.Life.{init}
use dmtimer.World.Delay.{cron_delay, every, is_daily, daily_text}
use dmtimer.World.Timers.{Registered}
use dmtimer.World.CronTimers.{set_timer_cron_text-Registered}

-- at the seconds 10 and 40 of minute 5 of each hour
abbrev twice_an_hour : List ℕ
twice_an_hour = codes "10,40 5 * * * *"

abbrev timer : CronTimer
timer = record { node = 7; id_event = 1; cron = twice_an_hour; fun_timer = some 5 }

abbrev start : World
start = init (λ p. new_element) 0 100 100 100

twice_an_hour-daily : daily_text twice_an_hour ≡ true
unfolding make_cron make_fields remove_empty split tokens cons_first c_str set_cron_field ends_with
    set_all set_one set_range set_steps make_range range_of contains is_only to_cron_int stoul
    skip_space is_space is_digit digits magnitude set_bits set_bit set_cron_days_of_week
    set_cron_days_of_month set_cron_month any_of replace_ordinals replace_from replace_first
    starts_with drop to_string to_upper upper every is_daily daily_text
twice_an_hour-daily = refl

-- From 1 January 1970, 0:03:20, the search answers 0:05:40, though 0:05:10 is sooner.
delay : cron_delay cal 4 twice_an_hour 200 ≡ done 140
unfolding cron_delay make_cron make_fields remove_empty split tokens cons_first c_str set_cron_field
    ends_with set_all set_one set_range set_steps make_range range_of contains is_only to_cron_int
    stoul skip_space is_space is_digit digits magnitude set_bits set_bit set_cron_days_of_week
    set_cron_days_of_month set_cron_month any_of replace_ordinals replace_from replace_first
    starts_with drop to_string to_upper upper cron_next find_next find_level minutes_on hours_on
    days_on months_on find_next_day find_day misses find_next_field wrap_field next_set_bit
    set_bit_from test_bit mark_if proceed again_unless settle add_to_field set_field reset_field
    reset_fields reset_all_fields with_field plus_field reset_value mark_field
delay = refl

abbrev pool_after : DynamicRapidPool
pool_after = elim (fetch_obj true max_pool_s max_pool_i start.pool) [
  | done (o, pool) ↦ pool
  | stopped r ↦ start.pool
]

start-fetch_obj : fetch_obj true max_pool_s max_pool_i start.pool ≡ done (some 0, pool_after)
unfolding init get_boot_time fetch_obj make_dynamic_pool is_empty make_pool fetch_slot located
    put_default
start-fetch_obj = refl

none_set : find 1 (start.nodes 7) ≢ some 0
unfolding init get_boot_time find
none_set e = cc

set_timer_cron_text-Registered_example :
    (time : ℕ) × (cex : CronExpr) × (make_cron cron_standard_traits twice_an_hour ≡ done cex)
    × IsAnswer cal cex 200 time
    × Registered 7 1
        ((time - 200) * 1000)
        100
        0
        start
        (set_timer_cron true timer (cron_delay cal 4 twice_an_hour 200) 100 start)
set_timer_cron_text-Registered_example =
    set_timer_cron_text-Registered cal cal-IsRegular 0 true 100 0 start pool_after timer 200
      (date_of 200) twice_an_hour-daily refl (omega arith) (omega arith) start-fetch_obj none_set
