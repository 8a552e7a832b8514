-- ===== src/Cron/Make.antt =====
-- `make_cron`, and the comparison and printing of `cronexpr` (include/dmcroncpp.h).
pub mod Sound
pub mod Print
use dmtimer.Base.{
  ℕ, zero, suc, ◌+◌, Bool, true, false, not, ◌&&◌, List, [], ◌∷◌, ◌++◌, ◌==◌, if◌then◌else◌, length,
  Outcome, done, stopped, thrown, ◌>>=◌,
}
use dmtimer.Cron.{Traits, Bits, CronExpr}
use dmtimer.Cron.Text.{Bytes, split}
use dmtimer.Cron.Field.{
  set_cron_field, set_cron_days_of_week, set_cron_days_of_month, set_cron_month,
}

abbrev pub no_bits : Bits
no_bits i = false

unfoldable pub same_bit : Bool → Bool → Bool
same_bit true b = b
same_bit false b = not b

-- `==` of two `std::bitset<N>`
unfoldable pub same_bits : ℕ → Bits → Bits → Bool
same_bits zero a b = true
same_bits (suc n) a b = same_bit (a n) (b n) && same_bits n a b

-- `operator==`; the text does not count
unfoldable pub equals : CronExpr → CronExpr → Bool
equals e1 e2 =
    same_bits 60 e1.seconds e2.seconds
    && same_bits 60 e1.minutes e2.minutes
    && same_bits 24 e1.hours e2.hours
    && same_bits 7 e1.days_of_week e2.days_of_week
    && same_bits 31 e1.days_of_month e2.days_of_month
    && same_bits 12 e1.months e2.months

-- `operator!=`
unfoldable pub differs : CronExpr → CronExpr → Bool
differs e1 e2 = not (equals e1 e2)

-- `std::bitset<N>::to_string`, the highest bit first
unfoldable pub bits_to_string : ℕ → Bits → Bytes
bits_to_string zero b = []
bits_to_string (suc n) b = (if b n then b'1' else b'0') ∷ bits_to_string n b

-- `to_string`
unfoldable pub cron_to_string : CronExpr → Bytes
cron_to_string cex =
    bits_to_string 60 cex.seconds
    ++ b' ' ∷ bits_to_string 60 cex.minutes
    ++ b' ' ∷ bits_to_string 24 cex.hours
    ++ b' ' ∷ bits_to_string 31 cex.days_of_month
    ++ b' ' ∷ bits_to_string 12 cex.months
    ++ b' ' ∷ bits_to_string 7 cex.days_of_week

-- `to_cronstr`
unfoldable pub to_cronstr : CronExpr → Bytes
to_cronstr cex = cex.expr

-- `remove_if` of the empty fields
unfoldable pub remove_empty : List Bytes → List Bytes
remove_empty [] = []
remove_empty ([] ∷ ts) = remove_empty ts
remove_empty ((c ∷ t) ∷ ts) = (c ∷ t) ∷ remove_empty ts

-- the six fields
unfoldable pub make_fields : Traits → Bytes → List Bytes → Outcome CronExpr
make_fields traits expr (f0 ∷ f1 ∷ f2 ∷ f3 ∷ f4 ∷ f5 ∷ []) = do
  seconds ← set_cron_field 60 f0 traits.min_seconds traits.max_seconds no_bits
  minutes ← set_cron_field 60 f1 traits.min_minutes traits.max_minutes no_bits
  hours ← set_cron_field 24 f2 traits.min_hours traits.max_hours no_bits
  days_of_week ← set_cron_days_of_week traits f5 no_bits
  days_of_month ← set_cron_days_of_month traits f3 no_bits
  months ← set_cron_month traits f4 no_bits
  done (record {
    seconds = seconds;
    minutes = minutes;
    hours = hours;
    days_of_week = days_of_week;
    days_of_month = days_of_month;
    months = months;
    expr = expr;
  })
make_fields traits expr _ = stopped thrown

-- `make_cron`
unfoldable pub make_cron : Traits → Bytes → Outcome CronExpr
make_cron traits [] = stopped thrown
make_cron traits (c ∷ s) = make_fields traits (c ∷ s) (remove_empty (split (c ∷ s) b' '))
