-- ===== src/World/Delay.antt =====
-- What the timer node and `Run` take from include/dmcroncpp.h: `cron_next( make_cron( s ), cur ) - cur`.
use mathlib.Core.Bool.{false≢true}
use dmtimer.Base.{
  ℕ, zero, suc, ◌+◌, ◌-◌, ◌≤◌, ◌<◌, ◌≡◌, refl, inl, inr, Bool, true, false, ◌&&◌, arith, ◌==◌,
  ==→eq, Bool-cases, some, List, sub64, Outcome, done, stopped, ◌>>=◌, Tried, tried, Returns-value,
}
use dmtimer.Cron.{Bits, CronExpr, cron_standard_traits}
use dmtimer.Cron.Make.{make_cron}
use dmtimer.Cron.Make.Sound.{IsParsed, make_cron-Tried, cron_standard_traits-AreSized}
use dmtimer.Cron.Date.{Tm, Calendar}
use dmtimer.Cron.Next.{cron_next}
use dmtimer.Cron.Next.Regular.{IsRegular}
use dmtimer.Cron.Next.Daily.{IsDaily}
use dmtimer.Cron.Next.Answer.{IsAnswer, cron_next-IsAnswer}

-- `depth` bounds the recursion of `find_next`
unfoldable pub cron_delay : Calendar → ℕ → List ℕ → ℕ → Outcome ℕ
cron_delay cal depth cron cur = do
  cex ← make_cron cron_standard_traits cron
  next ← cron_next cal cron_standard_traits depth cex cur
  done (sub64 next cur)

-- whether the first `n` bits are set
unfoldable pub every : ℕ → Bits → Bool
every zero b = true
every (suc n) b = b n && every n b

-- whether the expression has every day and every month
unfoldable pub is_daily : Outcome CronExpr → Bool
is_daily (done cex) =
    every 7 cex.days_of_week && (every 31 cex.days_of_month && every 12 cex.months)
is_daily (stopped r) = false

-- a text that parses to such an expression
unfoldable pub daily_text : List ℕ → Bool
daily_text cron = is_daily (make_cron cron_standard_traits cron)

every-bit : (n : ℕ) (b : Bits) (i : ℕ) → every n b ≡ true → i < n → b i ≡ true
unfolding every
every-bit zero b i e h = absurd (omega arith)
every-bit (suc n) b i e h = elim (Bool-cases (i == n)) [
  | inl at ↦ rw (==→eq i n at) (ground (arith, e))
  | inr ne ↦ every-bit n b i (ground (arith, e)) (ground arith)
]

-- An expression that parses and has every day and every month.
parsed-IsDaily :
    (expr : List ℕ) (m : Outcome CronExpr)
    → Tried (IsParsed expr) m
    → is_daily m ≡ true
    → (cex : CronExpr) × (m ≡ done cex) × IsDaily cex
unfolding is_daily
parsed-IsDaily expr (done cex) (tried (bits, e)) h = (
  cex,
  refl,
  record {
    seconds = bits.seconds;
    minutes = bits.minutes;
    hours = bits.hours;
    days_of_week = λ i. every-bit 7 cex.days_of_week i (ground (arith, h));
    days_of_month = λ i. every-bit 31 cex.days_of_month i (ground (arith, h));
    months = λ i. every-bit 12 cex.months i (ground (arith, h));
  },
)
parsed-IsDaily expr (stopped r) t h = absurd (false≢true h)

pub cron_delay-IsAnswer :
    (cal : Calendar) (from limit fuel : ℕ) (cron : List ℕ) (cur : ℕ) (dt : Tm)
    (regular : IsRegular cal from limit)
    → daily_text cron ≡ true
    → cal.localtime cur ≡ some dt
    → from ≤ cur
    → cur + 400000 ≤ limit
    → (time : ℕ) × (cex : CronExpr) × (make_cron cron_standard_traits cron ≡ done cex)
      × IsAnswer cal cex cur time
      × (cron_delay cal (suc (suc (suc (suc fuel)))) cron cur ≡ done (time - cur))
unfolding cron_delay daily_text
cron_delay-IsAnswer cal from limit fuel cron cur dt regular daily local since room =
    let (cex, parsed, d) =
      parsed-IsDaily cron _
        (make_cron-Tried cron_standard_traits cron_standard_traits-AreSized cron) daily in
    let (time, e, answer) =
      Returns-value (cron_next-IsAnswer cal regular cex fuel cur dt d local since room) in
    let exact : sub64 time cur ≡ time - cur =
      omega (arith, answer.later, answer.soon, room, regular.limited) in
    (time, cex, parsed, answer, rw (parsed, e, exact) refl)
