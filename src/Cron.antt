-- ===== src/Cron.antt =====
-- include/dmcroncpp.h: cron expressions of six fields, and the next time that matches one. Strings are
-- lists of bytes.
pub mod Text
pub mod Field
pub mod Make
pub mod Date
pub mod Next
pub mod Sample
mod Tests
use Prim.Native.Char.{code}
use Prim.Native.String.{String}
use dmtimer.Base.{ℕ, Bool, List, [], ◌∷◌}

-- the bytes of a text in ASCII
abbrev pub codes : String → List ℕ
codes String.[] = []
codes (String.◌∷◌ c s) = code c ∷ codes s

-- The bounds of the fields and the names of the days and months, of a `Traits` class.
pub record Traits : Type 0 where
  pub min_seconds : ℕ
  pub max_seconds : ℕ
  pub min_minutes : ℕ
  pub max_minutes : ℕ
  pub min_hours : ℕ
  pub max_hours : ℕ
  pub min_days_of_week : ℕ
  pub max_days_of_week : ℕ
  pub min_days_of_month : ℕ
  pub max_days_of_month : ℕ
  pub min_months : ℕ
  pub max_months : ℕ
  pub max_years_diff : ℕ
  pub days : List (List ℕ)
  pub months : List (List ℕ)

abbrev day_names : List (List ℕ)
day_names =
    codes "SUN"
    ∷ codes "MON"
    ∷ codes "TUE"
    ∷ codes "WED"
    ∷ codes "THU"
    ∷ codes "FRI"
    ∷ codes "SAT"
    ∷ []

abbrev month_names : List (List ℕ)
month_names =
    codes "JAN"
    ∷ codes "FEB"
    ∷ codes "MAR"
    ∷ codes "APR"
    ∷ codes "MAY"
    ∷ codes "JUN"
    ∷ codes "JUL"
    ∷ codes "AUG"
    ∷ codes "SEP"
    ∷ codes "OCT"
    ∷ codes "NOV"
    ∷ codes "DEC"
    ∷ []

abbrev pub cron_standard_traits : Traits
cron_standard_traits = record {
  min_seconds = 0;
  max_seconds = 59;
  min_minutes = 0;
  max_minutes = 59;
  min_hours = 0;
  max_hours = 23;
  min_days_of_week = 0;
  max_days_of_week = 6;
  min_days_of_month = 1;
  max_days_of_month = 31;
  min_months = 1;
  max_months = 12;
  max_years_diff = 4;
  days = day_names;
  months = codes "NIL" ∷ month_names;
}

abbrev pub cron_oracle_traits : Traits
cron_oracle_traits = record {
  min_seconds = 0;
  max_seconds = 59;
  min_minutes = 0;
  max_minutes = 59;
  min_hours = 0;
  max_hours = 23;
  min_days_of_week = 1;
  max_days_of_week = 7;
  min_days_of_month = 1;
  max_days_of_month = 31;
  min_months = 0;
  max_months = 11;
  max_years_diff = 4;
  days = codes "NIL" ∷ day_names;
  months = month_names;
}

abbrev pub cron_quartz_traits : Traits
cron_quartz_traits = record {
  min_seconds = 0;
  max_seconds = 59;
  min_minutes = 0;
  max_minutes = 59;
  min_hours = 0;
  max_hours = 23;
  min_days_of_week = 1;
  max_days_of_week = 7;
  min_days_of_month = 1;
  max_days_of_month = 31;
  min_months = 1;
  max_months = 12;
  max_years_diff = 4;
  days = codes "NIL" ∷ day_names;
  months = codes "NIL" ∷ month_names;
}

-- the bits of a `std::bitset`, whose size stands with each use
abbrev pub Bits : Type 0
Bits = ℕ → Bool

-- `cronexpr`
pub record CronExpr : Type 0 where
  pub seconds : Bits
  pub minutes : Bits
  pub hours : Bits
  pub days_of_week : Bits
  pub days_of_month : Bits
  pub months : Bits
  pub expr : List ℕ
