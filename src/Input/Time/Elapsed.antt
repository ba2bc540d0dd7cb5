-- ===== src/Input/Time/Elapsed.antt =====
-- platform/linux/input.c: usecs_elapsed and usecs_subtract against the time in nanoseconds.
use gtscreen.Prelude.{ℕ, ◌+◌, ◌-◌, ◌*◌, ◌/◌, ◌^◌, ◌≤◌, ◌<◌, ◌≡◌, arith, success}
use gtscreen.Input.Driver.{Timespec}
use gtscreen.Input.Time.{nsecs_per_sec, usecs_elapsed, usecs_subtract}

-- The time of a clock, in nanoseconds.
abbrev pub nanos : Timespec → ℕ
nanos t = t.sec * nsecs_per_sec + t.nsec

abbrev pub IsTime : Timespec → Type 0
IsTime t = t.nsec < nsecs_per_sec

-- From an earlier time to a later one usecs_elapsed gives the difference of the two in whole
-- microseconds, if that is less than 2 ^ 32.
pub usecs_elapsed-nanos :
    (cur stamp : Timespec)
    → IsTime cur
    → IsTime stamp
    → nanos stamp ≤ nanos cur
    → (nanos cur - nanos stamp) / 1000 < 2 ^ 32
    → usecs_elapsed cur stamp ≡ (nanos cur - nanos stamp) / 1000
unfolding usecs_elapsed
usecs_elapsed-nanos cur stamp hc hs le fits = ground arith

-- Taking off at most a second from a time that is past its first second succeeds, gives a time, and
-- is seen by usecs_elapsed as the very number of microseconds taken off.
pub usecs_elapsed-subtract :
    (t : Timespec) (usecs : ℕ)
    → IsTime t
    → usecs ≤ 1000000
    → 0 < t.sec
    → (usecs_elapsed t (usecs_subtract t usecs).0 ≡ usecs)
      × ((usecs_subtract t usecs).1 ≡ success)
      × IsTime (usecs_subtract t usecs).0
unfolding usecs_elapsed usecs_subtract
usecs_elapsed-subtract t usecs ht hu hs = ground arith
