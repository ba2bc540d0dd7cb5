-- ===== src/Input/Time.antt =====
-- platform/linux/input.c: usecs_elapsed and usecs_subtract. Results are of type unsigned int.
pub mod Elapsed
use gtscreen.Prelude.{
  ℕ, ◌+◌, ◌-◌, ◌*◌, ◌/◌, ◌%◌, ◌^◌, ◌||◌, ltb, leb, ◌==◌, if◌then◌else◌, Status, success, failure,
}
use gtscreen.Input.Driver.{Timespec}

abbrev pub nsecs_per_sec : ℕ
nsecs_per_sec = 1000000000

-- Also for a stamp that is later than the clock, where the differences are negative and the result
-- wraps. A product of seconds that leaves the range of a long is taken to wrap.
unfoldable pub usecs_elapsed : Timespec → Timespec → ℕ
usecs_elapsed cur stamp =
    let part = (nsecs_per_sec - stamp.nsec + cur.nsec) / 1000 in
    let behind = (stamp.sec + 1 - cur.sec) * 1000000 in
    if cur.sec == stamp.sec
    then (if leb stamp.nsec cur.nsec
        then (cur.nsec - stamp.nsec) / 1000
        else (2 ^ 32 - (stamp.nsec - cur.nsec) / 1000) % 2 ^ 32)
    else if ltb stamp.sec cur.sec
    then (part + (cur.sec - stamp.sec - 1) * 1000000) % 2 ^ 32
    else (part + (2 ^ 32 - behind % 2 ^ 32)) % 2 ^ 32

-- Takes off at most one second.
unfoldable pub usecs_subtract : Timespec → ℕ → Timespec × Status
usecs_subtract t usecs =
    let nsecs = usecs * 1000 in
    if ltb 1000000 usecs || (t.sec == 0)
    then (t, failure)
    else if leb nsecs t.nsec
    then (record t { nsec = t.nsec - nsecs }, success)
    else (record { sec = t.sec - 1; nsec = nsecs_per_sec - (nsecs - t.nsec) }, success)
