-- ===== src/Cron/Field.antt =====
-- One field of a cron expression: `make_range`, `set_cron_field` and what wraps it in
-- include/dmcroncpp.h.
pub mod Steps
pub mod Sound
use dmtimer.Base.{
  ℕ, zero, suc, ◌+◌, ◌-◌, ◌%◌, ◌^◌, Bool, true, false, not, ◌&&◌, ◌||◌, Option, none, some, List,
  [], ◌∷◌, ltb, leb, ◌==◌, if◌then◌else◌, update, length, Outcome, done, stopped, thrown,
  out_of_range, out_of_fuel, ◌>>=◌,
}
use dmtimer.Cron.{Traits, Bits}
use dmtimer.Cron.Text.{Bytes, to_upper, split, contains, to_cron_int, replace_ordinals}

-- a text of one byte
unfoldable pub is_only : ℕ → Bytes → Bool
is_only b [] = false
is_only b (c ∷ s) = (c == b) && (length s == 0)

-- the last byte is `b`
unfoldable pub ends_with : ℕ → Bytes → Bool
ends_with b [] = false
ends_with b (c ∷ s) = let rest = ends_with b s in if length s == 0 then c == b else rest

-- the two numbers on both sides of `-`
unfoldable pub range_between : List Bytes → Outcome (ℕ × ℕ)
range_between (a ∷ b ∷ []) = do first ← to_cron_int a; last ← to_cron_int b; done (first, last)
range_between _ = stopped thrown

-- the two numbers of a range, before they are tested
unfoldable pub range_of : Bytes → ℕ → ℕ → Outcome (ℕ × ℕ)
range_of field minval maxval =
    if is_only b'*' field
    then done (minval, maxval)
    else if not (contains field b'-')
    then (do first ← to_cron_int field; done (first, first))
    else range_between (split field b'-')

-- `make_range`
unfoldable pub make_range : Bytes → ℕ → ℕ → Outcome (ℕ × ℕ)
make_range field minval maxval = do
  (first, last) ← range_of field minval maxval
  if ltb maxval first || ltb maxval last
      then stopped thrown
      else if ltb first minval || ltb last minval
      then stopped thrown
      else if ltb last first
      then stopped thrown
      else done (first, last)

-- `std::bitset<N>::set`
unfoldable pub set_bit : ℕ → ℕ → Bits → Outcome Bits
set_bit N i target = if ltb i N then done (update target i true) else stopped out_of_range

-- The two loops that set bits; `i` is a `uint8_t`, and the first loop has the step 1.
unfoldable pub set_bits : ℕ → ℕ → ℕ → ℕ → ℕ → Bits → Outcome Bits
set_bits N zero delta stop i target = stopped out_of_fuel
set_bits N (suc fuel) delta stop i target = elim (leb i stop) [
  | true ↦ (do t ← set_bit N i target; set_bits N fuel delta stop ((i + delta) % 2 ^ 8) t)
  | false ↦ done target
]

-- the rounds that a loop over a `uint8_t` may take
abbrev pub rounds_enough : ℕ
rounds_enough = 256

-- a field without `/`
unfoldable pub set_range : ℕ → Bytes → ℕ → ℕ → Bits → Outcome Bits
set_range N field minval maxval target = do
  (first, last) ← make_range field minval maxval
  set_bits N rounds_enough 1 (last - minval) (first - minval) target

-- a field with `/`, when it is split
unfoldable pub set_steps : ℕ → List Bytes → ℕ → ℕ → Bits → Outcome Bits
set_steps N (start ∷ step ∷ []) minval maxval target = do
  (first, last) ← make_range start minval maxval
  delta ← to_cron_int step
  if delta == 0
      then stopped thrown
      else set_bits N rounds_enough delta ((if contains start b'-' then last else maxval) - minval)
          (first - minval) target
set_steps N _ minval maxval target = stopped thrown

-- the body of the loop over the fields
unfoldable pub set_one : ℕ → Bytes → ℕ → ℕ → Bits → Outcome Bits
set_one N field minval maxval target =
    if not (contains field b'/')
    then set_range N field minval maxval target
    else set_steps N (split field b'/') minval maxval target

unfoldable pub set_all : ℕ → List Bytes → ℕ → ℕ → Bits → Outcome Bits
set_all N [] minval maxval target = done target
set_all N (field ∷ fields) minval maxval target = do
  t ← set_one N field minval maxval target
  set_all N fields minval maxval t

-- `set_cron_field`
unfoldable pub set_cron_field : ℕ → Bytes → ℕ → ℕ → Bits → Outcome Bits
set_cron_field N value minval maxval target =
    if ends_with b',' value
    then stopped thrown
    else if length (split value b',') == 0
    then stopped thrown
    else set_all N (split value b',') minval maxval target

-- `?` alone is `*`
unfoldable pub any_of : Bytes → Bytes
any_of value = if is_only b'?' value then b'*' ∷ [] else value

-- `set_cron_days_of_week`
unfoldable pub set_cron_days_of_week : Traits → Bytes → Bits → Outcome Bits
set_cron_days_of_week traits value target =
    set_cron_field 7 (any_of (replace_ordinals (to_upper value) traits.days))
      traits.min_days_of_week traits.max_days_of_week target

-- `set_cron_days_of_month`
unfoldable pub set_cron_days_of_month : Traits → Bytes → Bits → Outcome Bits
set_cron_days_of_month traits value target =
    set_cron_field 31 (any_of value) traits.min_days_of_month traits.max_days_of_month target

-- `set_cron_month`
unfoldable pub set_cron_month : Traits → Bytes → Bits → Outcome Bits
set_cron_month traits value target =
    set_cron_field 12 (replace_ordinals (to_upper value) traits.months) traits.min_months
      traits.max_months target
