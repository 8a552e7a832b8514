-- ===== src/World/ClockTests.antt =====
-- The readings of the clock on concrete times, one of which is behind a wrap of its 32 bits.
use dmtimer.Base.{ℕ, ◌+◌, ◌-◌, ◌*◌, ◌≤◌, ◌≡◌, refl, List, [], ◌∷◌, arith}
use dmtimer.World.{World, new_element, get_boot_time, set_speed, speed_default}
use dmtimer.World.Life.{init}
use dmtimer.World.Clock.{
  TimeSpec, read_clock, IsRising, read_clock-exact, read_clock-lag, read_clock-stuck,
}

abbrev start : World
start = init (λ p. new_element) 0 100 100 100

-- 2 ^ 32 + 100
abbrev began : ℕ
began = 4294967396

-- 6000000 and 8600000 seconds
abbrev times : List TimeSpec
times = record { sec = 6000000; nsec = 0 } ∷ record { sec = 8600000; nsec = 999999 } ∷ []

times-IsRising : IsRising began times
times-IsRising = (omega arith, omega arith, (omega arith, omega arith, tt))

read_clock-exact_example : (read_clock times start).total_tick_count ≡ 0 + (8600000000 - began)
unfolding init get_boot_time
read_clock-exact_example = read_clock-exact times began start refl refl times-IsRising (omega arith)

abbrev slow : World
slow = set_speed 5000 start

read_clock-lag_example :
    (speed_default * (read_clock times slow).total_tick_count
      ≤ speed_default * 0 + (8600000000 - began) * 5000)
    × (speed_default * 0 + (8600000000 - began) * 5000
        ≤ speed_default * (read_clock times slow).total_tick_count + 9999 * 2)
unfolding init get_boot_time set_speed
read_clock-lag_example = read_clock-lag times began slow refl times-IsRising (omega arith)

-- readings at 101, 102 and 103 ms
abbrev polls : List TimeSpec
polls =
    record { sec = 0; nsec = 101000000 }
    ∷ record { sec = 0; nsec = 102500000 }
    ∷ record { sec = 0; nsec = 103999999 }
    ∷ []

read_clock-stuck_example : (read_clock polls slow).total_tick_count ≡ slow.total_tick_count
unfolding init get_boot_time set_speed
read_clock-stuck_example =
    read_clock-stuck polls 100 slow refl (omega arith)
      ((omega arith, omega arith, (omega arith, omega arith, (omega arith, omega arith, tt))))
      (omega arith)
