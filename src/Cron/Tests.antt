-- ===== src/Cron/Tests.antt =====
-- Runs of the cron functions on concrete texts and dates.
use dmtimer.Base.{
  ℕ, ◌≡◌, refl, false, true, [], ◌↔◌, Outcome, done, stopped, ◌==◌, ◌⊎◌, arith, Returns, Tried, ◌<◌,
  ◌≤◌, ltb, ◌||◌,
}
use dmtimer.Cron.{cron_standard_traits, codes, CronExpr, Bits}
use dmtimer.Cron.Text.{
  split, tokens, cons_first, c_str, to_cron_int, stoul, skip_space, is_space, is_digit, digits,
  magnitude, replace_ordinals, replace_from, replace_first, starts_with, drop, to_string, to_upper,
  upper, contains,
}
use dmtimer.Cron.Field.{
  is_only, ends_with, range_of, make_range, set_bit, set_bits, set_range, set_steps, set_one,
  set_all, set_cron_field, any_of, set_cron_days_of_week, set_cron_days_of_month, set_cron_month,
}
use dmtimer.Cron.Make.{no_bits, equals, cron_to_string, make_cron, make_fields, remove_empty}
use dmtimer.Cron.Date.{
  invalid_index, settle, add_to_field, set_field, reset_field, reset_fields, reset_all_fields,
  with_field, plus_field, reset_value, mark_field,
}
use dmtimer.Cron.Next.{
  find_next, cron_next, find_level, minutes_on, hours_on, days_on, months_on, find_next_day,
  find_day, misses, find_next_field, wrap_field, next_set_bit, set_bit_from, test_bit, mark_if,
  proceed, again_unless,
}
use dmtimer.Cron.Field.Steps.{hits, set_bits-exact}
use dmtimer.Cron.Make.Print.{equals-cron_to_string}
use dmtimer.Cron.Make.Sound.{cron_standard_traits-AreSized, IsParsed, make_cron-Tried}
use dmtimer.Cron.Next.SetBit.{IsFirst, next_set_bit-IsFirst}
use dmtimer.Cron.Sample.{cal, summer, summer_of, summer-IsRegular}
use dmtimer.Cron.Next.Daily.{IsDaily}
use dmtimer.Cron.Next.Answer.{IsAnswer, cron_next-IsAnswer}

abbrev next_after : Outcome CronExpr → ℕ → Outcome ℕ
next_after (done cex) t = cron_next cal cron_standard_traits 9 cex t
next_after (stopped r) t = stopped r

next : next_after (make_cron cron_standard_traits (codes "10,40 5 * * * *")) 200 ≡ done 340
unfolding make_cron make_fields remove_empty split tokens cons_first c_str set_cron_field ends_with
    set_all set_one set_range set_steps make_range range_of contains is_only to_cron_int stoul
    skip_space is_space is_digit digits magnitude set_bits set_bit set_cron_days_of_week
    set_cron_days_of_month set_cron_month any_of replace_ordinals replace_from replace_first
    starts_with drop to_string to_upper upper cron_next find_next find_level minutes_on hours_on
    days_on months_on find_next_day find_day misses find_next_field wrap_field next_set_bit
    set_bit_from test_bit mark_if proceed again_unless settle add_to_field set_field reset_field
    reset_fields reset_all_fields with_field plus_field reset_value mark_field
next = refl

-- 10,40 5 * * * *
abbrev twice_an_hour : CronExpr
twice_an_hour = record {
  seconds = λ i. (i == 10) || (i == 40);
  minutes = λ i. i == 5;
  hours = λ i. ltb i 24;
  days_of_week = λ i. ltb i 7;
  days_of_month = λ i. ltb i 31;
  months = λ i. ltb i 12;
  expr = codes "10,40 5 * * * *";
}

twice_an_hour-IsDaily : IsDaily twice_an_hour
twice_an_hour-IsDaily = record {
  seconds = record { bit = 10; inside = omega arith; is_set = refl };
  minutes = record { bit = 5; inside = omega arith; is_set = refl };
  hours = record { bit = 0; inside = omega arith; is_set = refl };
  days_of_week = λ i h. ground arith;
  days_of_month = λ i h. ground arith;
  months = λ i h. ground arith;
}

cron_next-IsAnswer_example :
    Returns
      (IsAnswer summer twice_an_hour 100000)
      (cron_next summer cron_standard_traits 4 twice_an_hour 100000)
cron_next-IsAnswer_example =
    cron_next-IsAnswer summer summer-IsRegular twice_an_hour 0 100000 (summer_of 107200)
      twice_an_hour-IsDaily refl (omega arith) (omega arith)

make_cron-Tried_example :
    Tried
      (IsParsed (codes "10,40 5 * * * *"))
      (make_cron cron_standard_traits (codes "10,40 5 * * * *"))
make_cron-Tried_example =
    make_cron-Tried cron_standard_traits cron_standard_traits-AreSized (codes "10,40 5 * * * *")

next_set_bit-IsFirst_example :
    ((next_set_bit 60 twice_an_hour.seconds 11 ≡ invalid_index)
      × ((j : ℕ) → 11 ≤ j → j < 60 → twice_an_hour.seconds j ≡ false))
    ⊎ IsFirst 60 twice_an_hour.seconds 11 (next_set_bit 60 twice_an_hour.seconds 11)
next_set_bit-IsFirst_example = next_set_bit-IsFirst 60 11 twice_an_hour.seconds

set_bits-exact_example :
    Returns
      (λ (t : Bits). (j : ℕ) → t j ≡ (no_bits j || hits 5 40 15 j))
      (set_bits 60 256 15 40 5 no_bits)
set_bits-exact_example =
    set_bits-exact 60 256 15 40 5 no_bits (omega arith) (omega arith) (omega arith) (omega arith)
      (omega arith)

equals-cron_to_string_example :
    (equals twice_an_hour (record twice_an_hour { expr = [] }) ≡ true)
    ↔ (cron_to_string twice_an_hour ≡ cron_to_string (record twice_an_hour { expr = [] }))
equals-cron_to_string_example =
    equals-cron_to_string twice_an_hour (record twice_an_hour { expr = [] })
