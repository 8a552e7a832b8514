-- ===== src/World/Clock.antt =====
-- include/dmtimermodule.h: `GetTickCount32` where `clock_gettime` gives the time, and `CDMTimeElapse`; and what
-- the readings of the clock add up to in `GetBootTime` of src/dmtimermodule.cpp.
use native.Mathlib.Nat.{add-mul, zero-mul}
use dmtimer.Base.{
  ℕ, ◌+◌, ◌-◌, ◌*◌, ◌/◌, ◌%◌, ◌^◌, ◌≤◌, ◌<◌, ◌≡◌, refl, ◌∙◌, List, [], ◌∷◌, arith, sub32, add64,
  mul64, length, Bool-cases, inl, inr, ◌==◌, ==→eq,
}
use dmtimer.World.{World, get_boot_time, speed_default}

-- `struct timespec` of `CLOCK_MONOTONIC`
pub record TimeSpec : Type 0 where
  pub sec : ℕ
  pub nsec : ℕ

-- `GetTickCount32`, with the conversion to `uint32_t`
unfoldable pub get_tick_count32 : TimeSpec → ℕ
get_tick_count32 ts = (ts.sec * 1000 + ts.nsec / 1000000) % 2 ^ 32

-- `CDMTimeElapse`
pub record TimeElapse : Type 0 where
  pub start : ℕ

-- `Start`, which the constructor calls
unfoldable pub start_elapse : TimeSpec → TimeElapse
start_elapse now = record { start = get_tick_count32 now }

-- `End`
unfoldable pub end_elapse : TimeSpec → TimeElapse → ℕ
end_elapse now e = sub32 (get_tick_count32 now) e.start

-- the milliseconds of a time
abbrev pub millis : TimeSpec → ℕ
millis ts = ts.sec * 1000 + ts.nsec / 1000000

-- The clock is read at these times, one after another.
unfoldable pub read_clock : List TimeSpec → World → World
read_clock [] w = w
read_clock (t ∷ ts) w = read_clock ts (get_boot_time (get_tick_count32 t) w).1

-- the last of the readings, after one at `ms` milliseconds
abbrev pub last_millis : ℕ → List TimeSpec → ℕ
last_millis ms [] = ms
last_millis ms (t ∷ ts) = last_millis (millis t) ts

-- No reading goes back, and each comes less than 2 ^ 32 ms, that is 49 days, after the one before.
abbrev pub IsRising : ℕ → List TimeSpec → Type 0
IsRising ms [] = Unit {0}
IsRising ms (t ∷ ts) = (ms ≤ millis t) × (millis t < ms + 2 ^ 32) × IsRising (millis t) ts

-- A duration below 2 ^ 32 ms is measured as it is, also if the 32 bits of the clock wrap meanwhile.
pub end_elapse-exact :
    (from to : TimeSpec)
    → millis from ≤ millis to
    → millis to < millis from + 2 ^ 32
    → end_elapse to (start_elapse from) ≡ millis to - millis from
unfolding end_elapse start_elapse get_tick_count32
end_elapse-exact from to h h' = omega arith

-- the real time that a reading sees
passed :
    (ms : ℕ) (t : TimeSpec) (w : World)
    → w.tick_count ≡ ms % 2 ^ 32
    → ms ≤ millis t
    → millis t < ms + 2 ^ 32
    → sub32 (get_tick_count32 t) w.tick_count ≡ millis t - ms
unfolding get_tick_count32
passed ms t w e h h' = rw e (omega arith)

last-le : (ms : ℕ) (ts : List TimeSpec) → IsRising ms ts → ms ≤ last_millis ms ts
last-le ms [] r = omega arith
last-le ms (t ∷ ts) r = omega (arith, r.0, last-le (millis t) ts r.2)

-- one reading, `d` ms after the one before
total-reading :
    (ms : ℕ) (t : TimeSpec) (w : World)
    → w.tick_count ≡ ms % 2 ^ 32
    → ms ≤ millis t
    → millis t < ms + 2 ^ 32
    → (get_boot_time (get_tick_count32 t) w).1.total_tick_count
      ≡ add64 w.total_tick_count (mul64 (millis t - ms) w.speed / speed_default)
unfolding get_boot_time
total-reading ms t w e h h' = rw (passed ms t w e h h') refl

-- At the default speed, the boot time advances by exactly the real time, however often the clock is
-- read, if no reading goes back, each is less than 2 ^ 32 ms after the one before, the first
-- included, for which `m_dwTickCount` holds the reading before it, and the boot time stays within
-- 64 bits.
pub read_clock-exact :
    (ts : List TimeSpec) (ms : ℕ) (w : World)
    → w.tick_count ≡ ms % 2 ^ 32
    → w.speed ≡ speed_default
    → IsRising ms ts
    → w.total_tick_count + (last_millis ms ts - ms) < 2 ^ 64
    → (read_clock ts w).total_tick_count ≡ w.total_tick_count + (last_millis ms ts - ms)
unfolding read_clock get_boot_time
read_clock-exact [] ms w e s r small = omega arith
read_clock-exact (t ∷ ts) ms w e s r small =
    let w1 = (get_boot_time (get_tick_count32 t) w).1 in
    let on = last-le (millis t) ts r.2 in
    let reading : w1.total_tick_count ≡ w.total_tick_count + (millis t - ms) =
      total-reading ms t w e r.0 r.1 ∙ rw s (omega (arith, r.0, r.1, small, on)) in
    let rest =
      read_clock-exact ts (millis t) w1 (unfold get_tick_count32 in refl) s r.2
        (omega (arith, reading, small, on, r.0)) in
    omega (arith, rest, reading, on, r.0)

-- If the clock is read any number of times at one speed, at times of `CLOCK_MONOTONIC` that do not
-- go back and of which each is less than 2 ^ 32 ms after the one before, the first included, for
-- which `m_dwTickCount` holds the reading before it, and the real time times the speed fits 64 bits
-- together with the boot time, then `GetBootTime` counts at most the real time times the speed over
-- 10000, also if the 32 bits of `GetTickCount32` wrap, and each reading loses less than one
-- millisecond of it.
pub read_clock-lag :
    (ts : List TimeSpec) (ms : ℕ) (w : World)
    → w.tick_count ≡ ms % 2 ^ 32
    → IsRising ms ts
    → w.total_tick_count + (last_millis ms ts - ms) * w.speed < 2 ^ 64
    → (speed_default * (read_clock ts w).total_tick_count
        ≤ speed_default * w.total_tick_count + (last_millis ms ts - ms) * w.speed)
      × (speed_default * w.total_tick_count + (last_millis ms ts - ms) * w.speed
          ≤ speed_default * (read_clock ts w).total_tick_count + 9999 * length ts)
unfolding read_clock get_boot_time
read_clock-lag [] ms w e r small =
    let none : (ms - ms) * w.speed ≡ 0 = rw no_time (zero-mul w.speed) in
    (omega (arith, none), omega (arith, none))
  where
    no_time : ms - ms ≡ 0
    no_time = omega arith
read_clock-lag (t ∷ ts) ms w e r small =
    let w1 = (get_boot_time (get_tick_count32 t) w).1 in
    let on = last-le (millis t) ts r.2 in
    let parts : last_millis (millis t) ts - ms
        ≡ (millis t - ms) + (last_millis (millis t) ts - millis t) =
      omega (arith, on, r.0) in
    let sum : (last_millis (millis t) ts - ms) * w.speed
        ≡ (millis t - ms) * w.speed + (last_millis (millis t) ts - millis t) * w.speed =
      rw parts (add-mul (millis t - ms) (last_millis (millis t) ts - millis t) w.speed) in
    let reading : w1.total_tick_count
        ≡ w.total_tick_count + (millis t - ms) * w.speed / speed_default =
      total-reading ms t w e r.0 r.1 ∙ omega (arith, small, sum) in
    let (above, below) =
      read_clock-lag ts (millis t) w1 (unfold get_tick_count32 in refl) r.2
        (omega (arith, reading, small, sum)) in
    (omega (arith, above, reading, sum), omega (arith, below, reading, sum))

-- A reading of the clock in every millisecond, or more often.
abbrev pub IsPolled : ℕ → List TimeSpec → Type 0
IsPolled ms [] = Unit {0}
IsPolled ms (t ∷ ts) = (ms ≤ millis t) × (millis t ≤ ms + 1) × IsPolled (millis t) ts

-- Below the default speed, the boot time stands still if the clock is read in every millisecond:
-- after any number of readings, of which none goes back and none is more than one millisecond after
-- the one before, the first included, for which `m_dwTickCount` holds the reading before it,
-- `GetBootTime` gives what it gave before the first.
pub read_clock-stuck :
    (ts : List TimeSpec) (ms : ℕ) (w : World)
    → w.tick_count ≡ ms % 2 ^ 32
    → w.speed < speed_default
    → IsPolled ms ts
    → w.total_tick_count < 2 ^ 64
    → (read_clock ts w).total_tick_count ≡ w.total_tick_count
unfolding read_clock get_boot_time
read_clock-stuck [] ms w e slow r small = refl
read_clock-stuck (t ∷ ts) ms w e slow r small =
    let w1 = (get_boot_time (get_tick_count32 t) w).1 in
    let stuck : w1.total_tick_count ≡ w.total_tick_count =
      total-reading ms t w e r.0 (omega (arith, r.1))
      ∙ below (millis t - ms) (omega (arith, r.1)) in
    read_clock-stuck ts (millis t) w1 (unfold get_tick_count32 in refl) slow r.2
      (omega (arith, stuck, small))
    ∙ stuck
  where
    below :
        (d : ℕ)
        → d ≤ 1
        → add64 w.total_tick_count (mul64 d w.speed / speed_default) ≡ w.total_tick_count
    below d h = elim (Bool-cases (d == 0)) [
      | inl e ↦ rw (==→eq d 0 e, zero-mul w.speed) (omega (arith, small))
      | inr ne ↦ let one : d ≡ 1 = ground (arith, ne) in rw (one) (omega (arith, small, slow))
    ]
