-- ===== src/Tests/Input.antt =====
-- The input drivers: devices for their theorems, and runs.
use gtscreen.Prelude.{
  Ends, ℕ, ◌-◌, ◌/◌, ◌≡◌, refl, true, false, none, some, List, [], ◌∷◌, ◌++◌, arith, replicate,
  if◌then◌else◌, All, pos, negsuc, success, failure,
}
use gtscreen.Protocol.{Input}
use gtscreen.Server.State.{Device}
use gtscreen.Input.Driver.{Pvt, Timespec}
use gtscreen.Input.Buttons.{btn_is_down, set_input_msg, bit_check}
use gtscreen.Input.Buttons.Pressed.{Fits, after, heard, set_input_msg-refines}
use gtscreen.Input.Time.{usecs_elapsed, usecs_subtract}
use gtscreen.Input.Time.Elapsed.{IsTime, nanos, usecs_elapsed-nanos, usecs_elapsed-subtract}
use gtscreen.Input.Surface.{InputEvent, Contact}
use gtscreen.Input.Surface.Events.{consume_surface_report}
use gtscreen.Input.Surface.Bounds.{Contacts, Slot, InField}
use gtscreen.Input.Surface.Report.{consume_surface_report-InField}
use gtscreen.Input.Surface.Consumed.{consume_surface_report-consumed}
use gtscreen.Input.Pointer.{Float}
use gtscreen.Input.Evdev.Events.{evdev_loop}
use gtscreen.Input.Evdev.Ends.{Stalled, evdev_loop_ends}
use gtscreen.Input.Keys.{row, evdev_translate_keycode, preempt_keycodes, passed, swallowed}
use gtscreen.Input.Keys.Preempted.{swallowed_release}
use gtscreen.Input.Keymap.{keymap}
use gtscreen.Input.Setup.{cleared}
use gtscreen.Input.Setup.Fresh.{zero-IsAxis}
use gtscreen.Tests.{calm, state}

-- A pad with positions from 0 to 1000, its floating-point numbers cut to whole ones.
abbrev clock : Timespec
clock = record { sec = 100; nsec = 5000 }

abbrev pad : Pvt ℕ
pad = record (cleared 0 clock) { absinfo = λ i. record { minimum = pos 0; maximum = pos 1000 } }

pad-Contacts : Contacts pad
pad-Contacts = record {
  ids = refl;
  mags = refl;
  x_axis = zero-IsAxis (record { minimum = pos 0; maximum = pos 1000 }) (omega arith);
  y_axis = zero-IsAxis (record { minimum = pos 0; maximum = pos 1000 }) (omega arith);
}

-- A contact in slot 3 at (500, 0), then the end of the report.
abbrev touching : List InputEvent
touching =
    record { type = 3; code = 0x2f; value = pos 3 }
    ∷ record { type = 3; code = 0x39; value = pos 45 }
    ∷ record { type = 3; code = 0x35; value = pos 500 }
    ∷ record { type = 0; code = 0; value = pos 0 }
    ∷ []

consume_surface_report-InField_example :
    (n : ℕ) × (pvt : Pvt ℕ) × (sent : List Contact) × (consume_surface_report touching 0 pad
      ≡ some (n, pvt, sent))
    × Contacts pvt
    × Slot pvt.active_contact
    × All InField sent
consume_surface_report-InField_example =
    consume_surface_report-InField touching 0 pad pad-Contacts tt

consume_surface_report-consumed_example :
    (pvt : Pvt ℕ) × (sent : List Contact) × (consume_surface_report touching 0 pad
      ≡ some (2, pvt, sent))
consume_surface_report-consumed_example =
    consume_surface_report-consumed touching 0 pad pad-Contacts tt (omega arith) (omega arith)

abbrev whole : Float ℕ
whole = record {
  of_int = λ z. elim z [ pos n ↦ n | negsuc n ↦ 0 ];
  to_int = λ n. pos n;
  literal = λ a b. 0;
  sub = λ a b. a - b;
  add = λ a b. a;
  mul = λ a b. b;
  div = λ a b. a;
  fmin = λ a b. a;
  fabs = λ a. a;
  lt = λ a b. false;
  le = λ a b. true;
}

abbrev blank : Input
blank = record { val = 0; ext = 0; code = 0; type = 0; id = 0 }

evdev_loop_ends_example :
    Ends
      (evdev_loop whole calm 9 blank 0 true 0 1 5 touching none 0 pad state)
      (Stalled whole calm 9 blank 0 true 0 1 touching none)
evdev_loop_ends_example =
    evdev_loop_ends whole calm 9 blank 0 true 0 1 5 touching none 0 pad state (omega arith)
      (record { contacts = pad-Contacts; slot = tt }) (omega arith) (omega arith)

-- No key is down, or the left alt key is.
abbrev quiet : Device
quiet = record {
  addr = 40;
  fd = some 8;
  device_id = 1;
  has_hotkey = true;
  driver = none;
  btn_down = replicate 11 0;
}

abbrev alted : Device
alted = record {
  addr = 40;
  fd = some 8;
  device_id = 1;
  has_hotkey = true;
  driver = none;
  btn_down = replicate 8 0 ++ 16 ∷ 0 ∷ 0 ∷ [];
}

abbrev press : ℕ → Input
press code = record blank { val = 1; code = code; type = 2 }

set_input_msg-refines_example :
    Fits (set_input_msg quiet (press 30) 97).0
    × ((k : ℕ)
        → btn_is_down (set_input_msg quiet (press 30) 97).0 k ≡ after (btn_is_down quiet) 1 97 k)
    × ((set_input_msg quiet (press 30) 97).2
        ≡ (if heard (btn_is_down quiet) 1 97 then success else failure))
    × ((set_input_msg quiet (press 30) 97).1 ≡ press 97)
set_input_msg-refines_example = set_input_msg-refines quiet (press 30) 97 refl (omega arith)

abbrev board : Pvt ℕ
board = record (cleared 0 clock) { touch_sbtn = none }

-- Alt and F1, which has the code 59.
swallowed_release_example :
    let down = evdev_translate_keycode alted board (press 59) in
    let up = evdev_translate_keycode down.device down.pvt (record (press 59) { val = 0 }) in
    (down.status ≡ success)
    × (preempt_keycodes true down.device down.msg ≡ swallowed)
    × (up.status ≡ success)
    × (up.msg.code ≡ 290)
    × (preempt_keycodes true up.device up.msg ≡ passed)
unfolding row keymap btn_is_down bit_check
swallowed_release_example =
    swallowed_release true alted board (press 59) 290 refl refl refl refl refl

usecs_elapsed-nanos_example :
    usecs_elapsed (record { sec = 101; nsec = 2000 }) clock
    ≡ (nanos (record { sec = 101; nsec = 2000 }) - nanos clock) / 1000
usecs_elapsed-nanos_example =
    usecs_elapsed-nanos (record { sec = 101; nsec = 2000 }) clock (omega arith) (omega arith)
      (omega arith) (omega arith)

usecs_elapsed-subtract_example :
    (usecs_elapsed clock (usecs_subtract clock 140000).0 ≡ 140000)
    × ((usecs_subtract clock 140000).1 ≡ success)
    × IsTime (usecs_subtract clock 140000).0
usecs_elapsed-subtract_example =
    usecs_elapsed-subtract clock 140000 (omega arith) (omega arith) (omega arith)
