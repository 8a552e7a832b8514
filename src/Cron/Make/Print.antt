-- ===== src/Cron/Make/Print.antt =====
-- `operator==` of two expressions against what `to_string` prints of them.
use mathlib.Core.List.{append-nil}
use dmtimer.Base.{
  ℕ, zero, suc, ◌≡◌, ◌↔◌, refl, ap, sym, ◌∙◌, Bool, true, false, arith, [], ◌∷◌, ◌++◌,
  if◌then◌else◌,
}
use dmtimer.Cron.{Bits, CronExpr}
use dmtimer.Cron.Text.{Bytes}
use dmtimer.Cron.Make.{same_bit, same_bits, equals, bits_to_string, cron_to_string}

abbrev head_or : Bytes → ℕ
head_or [] = 0
head_or (c ∷ s) = c

abbrev tail_of : Bytes → Bytes
tail_of [] = []
tail_of (c ∷ s) = s

abbrev digit : Bool → ℕ
digit b = if b then b'1' else b'0'

same_bit-digit : (a b : Bool) → digit a ≡ digit b → same_bit a b ≡ true
unfolding same_bit
same_bit-digit true true e = refl
same_bit-digit true false e = absurd (omega (arith, e))
same_bit-digit false true e = absurd (omega (arith, e))
same_bit-digit false false e = refl

digit-same_bit : (a b : Bool) → same_bit a b ≡ true → digit a ≡ digit b
unfolding same_bit
digit-same_bit true true e = refl
digit-same_bit true false e = ground (arith, e)
digit-same_bit false true e = ground (arith, e)
digit-same_bit false false e = refl

-- Sets that are the same print the same.
bits_to_string-same_bits :
    (N : ℕ) (a b : Bits) → same_bits N a b ≡ true → bits_to_string N a ≡ bits_to_string N b
unfolding bits_to_string same_bits
bits_to_string-same_bits zero a b e = refl
bits_to_string-same_bits (suc n) a b e =
    let first = digit-same_bit (a n) (b n) (ground (arith, e)) in
    rw (first, bits_to_string-same_bits n a b (ground (arith, e))) refl

-- The text of a set has a fixed length, so it can be read off from the front.
same_bits-split :
    (N : ℕ) (a b : Bits) (s t : Bytes)
    → bits_to_string N a ++ s ≡ bits_to_string N b ++ t
    → (same_bits N a b ≡ true) × (s ≡ t)
unfolding bits_to_string same_bits
same_bits-split zero a b s t e = (refl, e)
same_bits-split (suc n) a b s t e =
    let first = same_bit-digit (a n) (b n) (ap head_or e) in
    let (rest, same) = same_bits-split n a b s t (ap tail_of e) in
    (ground (arith, first, rest), same)

same_print : (e1 e2 : CronExpr) → equals e1 e2 ≡ true → cron_to_string e1 ≡ cron_to_string e2
unfolding equals cron_to_string
same_print e1 e2 e =
    rw
      (
        bits_to_string-same_bits 60 e1.seconds e2.seconds (ground (arith, e)),
        bits_to_string-same_bits 60 e1.minutes e2.minutes (ground (arith, e)),
        bits_to_string-same_bits 24 e1.hours e2.hours (ground (arith, e)),
        bits_to_string-same_bits 7 e1.days_of_week e2.days_of_week (ground (arith, e)),
        bits_to_string-same_bits 31 e1.days_of_month e2.days_of_month (ground (arith, e)),
        bits_to_string-same_bits 12 e1.months e2.months (ground (arith, e)),
      )
      refl

print_same : (e1 e2 : CronExpr) → cron_to_string e1 ≡ cron_to_string e2 → equals e1 e2 ≡ true
unfolding equals cron_to_string bits_to_string
print_same e1 e2 e =
    let (seconds, t1) = same_bits-split 60 e1.seconds e2.seconds _ _ e in
    let (minutes, t2) = same_bits-split 60 e1.minutes e2.minutes _ _ (ap tail_of t1) in
    let (hours, t3) = same_bits-split 24 e1.hours e2.hours _ _ (ap tail_of t2) in
    let (days, t4) = same_bits-split 31 e1.days_of_month e2.days_of_month _ _ (ap tail_of t3) in
    let (months, t5) = same_bits-split 12 e1.months e2.months _ _ (ap tail_of t4) in
    let (week, t6) =
      same_bits-split 7 e1.days_of_week e2.days_of_week [] []
        (append-nil _ ∙ ap tail_of t5 ∙ sym (append-nil _)) in
    rw (seconds, minutes, hours, week, days, months) refl

-- Two cron expressions are `==` exactly if `to_string` prints the same text of both.
pub equals-cron_to_string :
    (e1 e2 : CronExpr) → (equals e1 e2 ≡ true) ↔ (cron_to_string e1 ≡ cron_to_string e2)
equals-cron_to_string e1 e2 = (same_print e1 e2, print_same e1 e2)
