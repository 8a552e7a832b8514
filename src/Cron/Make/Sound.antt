-- ===== src/Cron/Make/Sound.antt =====
-- `make_cron` throws `bad_cronexpr` or gives an expression with a bit in each of its six sets.
use dmtimer.Base.{arith, ℕ, ◌<◌, ◌≡◌, refl, true, List, [], ◌∷◌, Tried, tried, threw, Tried-bind}
use dmtimer.Cron.{cron_standard_traits, Traits, Bits, CronExpr}
use dmtimer.Cron.Text.{Bytes, split}
use dmtimer.Cron.Field.{any_of, set_cron_days_of_week, set_cron_days_of_month, set_cron_month}
use dmtimer.Cron.Field.Sound.{IsSized, Marked, set_cron_field-Tried}
use dmtimer.Cron.Make.{no_bits, make_fields, make_cron, remove_empty}

-- The sets of a traits class fit the bitsets of `cronexpr`.
pub record AreSized (traits : Traits) : Type 0 where
  pub seconds : IsSized 60 traits.min_seconds traits.max_seconds
  pub minutes : IsSized 60 traits.min_minutes traits.max_minutes
  pub hours : IsSized 24 traits.min_hours traits.max_hours
  pub days_of_week : IsSized 7 traits.min_days_of_week traits.max_days_of_week
  pub days_of_month : IsSized 31 traits.min_days_of_month traits.max_days_of_month
  pub months : IsSized 12 traits.min_months traits.max_months

-- A bit below `N` is set.
pub record HasBit (N : ℕ) (b : Bits) : Type 0 where
  pub bit : ℕ
  pub inside : bit < N
  pub is_set : b bit ≡ true

pub record HasBits (cex : CronExpr) : Type 0 where
  pub seconds : HasBit 60 cex.seconds
  pub minutes : HasBit 60 cex.minutes
  pub hours : HasBit 24 cex.hours
  pub days_of_week : HasBit 7 cex.days_of_week
  pub days_of_month : HasBit 31 cex.days_of_month
  pub months : HasBit 12 cex.months

Marked-HasBit : {N : ℕ} {b t : Bits} → Marked N b t → HasBit N t
Marked-HasBit m = record { bit = m.bit; inside = m.inside; is_set = m.is_set }

-- What `make_cron` gives for the text `expr`.
abbrev pub IsParsed : Bytes → CronExpr → Type 0
IsParsed expr cex = HasBits cex × (cex.expr ≡ expr)

module _ (traits : Traits) (sized : AreSized traits) where
  make_fields-Tried :
      (expr : Bytes) (fields : List Bytes) → Tried (IsParsed expr) (make_fields traits expr fields)
  unfolding make_fields set_cron_days_of_week set_cron_days_of_month set_cron_month
  make_fields-Tried expr [] = threw
  make_fields-Tried expr (f0 ∷ []) = threw
  make_fields-Tried expr (f0 ∷ f1 ∷ []) = threw
  make_fields-Tried expr (f0 ∷ f1 ∷ f2 ∷ []) = threw
  make_fields-Tried expr (f0 ∷ f1 ∷ f2 ∷ f3 ∷ []) = threw
  make_fields-Tried expr (f0 ∷ f1 ∷ f2 ∷ f3 ∷ f4 ∷ []) = threw
  make_fields-Tried expr (f0 ∷ f1 ∷ f2 ∷ f3 ∷ f4 ∷ f5 ∷ []) =
      Tried-bind (set_cron_field-Tried sized.seconds f0 no_bits) λ t0 m0.
        Tried-bind (set_cron_field-Tried sized.minutes f1 no_bits) λ t1 m1.
          Tried-bind (set_cron_field-Tried sized.hours f2 no_bits) λ t2 m2.
            Tried-bind (set_cron_field-Tried sized.days_of_week _ no_bits) λ t3 m3.
              Tried-bind (set_cron_field-Tried sized.days_of_month (any_of f3) no_bits) λ t4 m4.
                Tried-bind (set_cron_field-Tried sized.months _ no_bits) λ t5 m5. tried (
                  record {
                    seconds = Marked-HasBit m0;
                    minutes = Marked-HasBit m1;
                    hours = Marked-HasBit m2;
                    days_of_week = Marked-HasBit m3;
                    days_of_month = Marked-HasBit m4;
                    months = Marked-HasBit m5;
                  },
                  refl,
                )
  make_fields-Tried expr (f0 ∷ f1 ∷ f2 ∷ f3 ∷ f4 ∷ f5 ∷ f6 ∷ fields) = threw

  -- For any text, if the bounds of the traits fit the bitsets, `make_cron` either throws
  -- `bad_cronexpr` or gives an expression that keeps the text and has a bit set within each of its
  -- six sets. No bit outside a set is tested or set, which would throw `std::out_of_range`, and no
  -- loop over a `uint8_t` runs for ever.
  pub make_cron-Tried : (expr : Bytes) → Tried (IsParsed expr) (make_cron traits expr)
  unfolding make_cron
  make_cron-Tried [] = threw
  make_cron-Tried (c ∷ s) = make_fields-Tried (c ∷ s) (remove_empty (split (c ∷ s) b' '))

pub cron_standard_traits-AreSized : AreSized cron_standard_traits
cron_standard_traits-AreSized = record {
  seconds = record { ordered = omega arith; inside = omega arith; small = omega arith };
  minutes = record { ordered = omega arith; inside = omega arith; small = omega arith };
  hours = record { ordered = omega arith; inside = omega arith; small = omega arith };
  days_of_week = record { ordered = omega arith; inside = omega arith; small = omega arith };
  days_of_month = record { ordered = omega arith; inside = omega arith; small = omega arith };
  months = record { ordered = omega arith; inside = omega arith; small = omega arith };
}
