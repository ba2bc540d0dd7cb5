-- ===== src/Tests/Start.antt =====
-- The start of the program: an environment, device directories, and runs.
use gtscreen.Prelude.{
  Option, ℕ, ◌≡◌, ◌⊎◌, refl, arith, true, false, none, some, List, [], ◌∷◌, ◌++◌, replicate, pos,
  All,
}
use gtscreen.Start.{Text, Environ, Options, read_environ, read_args, arg_inactive_vt}
use gtscreen.Start.Ranges.{InRange}
use gtscreen.Start.Arguments.{given}
use gtscreen.Start.Main.{Making, found, check_fs, prepare}
use gtscreen.Start.Ready.{Safe, prepare-Ready}
use gtscreen.Input.Driver.{Pvt, Timespec, Absinfo}
use gtscreen.Input.Evdev.Placed.{Placed}
use gtscreen.Input.Buttons.{bit_check, bit_count}
use gtscreen.Input.Discover.{
  devpfx, devdir, check_environ, Caps, Prospect, touch, broken, capable, find_most_capable,
  probably_surface, entry_path,
}
use gtscreen.Input.Discover.Environment.{IsNumber, check_environ-Exact}
use gtscreen.Input.Discover.Chosen.{Among, find_most_capable-Among}
use gtscreen.Input.Setup.{cleared, evdev_setup}
use gtscreen.Input.Setup.Measured.{Fresh, evdev_setup-Fresh}

-- Only a width of 65792 is set, which a uint16_t cuts to 256.
abbrev wide : Environ
wide = record {
  vscroll = none;
  width = some (b'6' ∷ b'5' ∷ b'7' ∷ b'9' ∷ b'2' ∷ []);
  height = none;
  refresh = none;
  accel = none;
  tap = none;
  socket = none;
}

abbrev pub options : Options
options = record {
  socket_name = b'm' ∷ [];
  request_width = 256;
  request_height = 0;
  request_refresh = 60;
  tap_delay = 280000;
  pointer_accel = 160;
  vscroll_amount = pos 30;
  inactive_vt = false;
}

abbrev unneeded : Making
unneeded = record { to_root = false; made = false; back = false }

-- One argument, and a directory as it should be.
prepare-Ready_example :
    let argv : List Text = arg_inactive_vt ∷ [] in
    InRange (record options { inactive_vt = true })
    × All (λ a. arg_inactive_vt ≡ a) argv
    × (true ≡ given argv)
    × Safe (found true true 0 0) unneeded
unfolding prepare check_fs read_environ read_args
prepare-Ready_example =
    prepare-Ready (b'm' ∷ []) wide (arg_inactive_vt ∷ []) (found true true 0 0) unneeded
      (record options { inactive_vt = true }) refl

-- A pad: BTN_TOUCH, and the axes 0 and 1.
abbrev pub pad_caps : Caps
pad_caps = record {
  evbits = 8 ∷ [];
  keybits = replicate 10 0 ++ 1024 ∷ replicate 13 0;
  relbits = 0 ∷ [];
  absbits = 3 ∷ 0 ∷ [];
  ledbits = 0 ∷ [];
  ffbits = replicate 4 0;
}

abbrev pub event_name : List ℕ
event_name = b'e' ∷ b'v' ∷ b'e' ∷ b'n' ∷ b't' ∷ b'4' ∷ []

abbrev pad_prospect : Prospect
pad_prospect = record {
  path = entry_path event_name;
  key = 1;
  rel = 0;
  abs = 2;
  led = 0;
  ff = 0;
  surface = true;
}

find_most_capable-Among_example :
    Among touch ((b'm' ∷ [], broken) ∷ (event_name, capable pad_caps) ∷ []) pad_prospect.path
unfolding find_most_capable probably_surface bit_check bit_count
find_most_capable-Among_example =
    find_most_capable-Among touch ((b'm' ∷ [], broken) ∷ (event_name, capable pad_caps) ∷ [])
      pad_prospect refl

abbrev pub clock : Timespec
clock = record { sec = 100; nsec = 5000 }

abbrev pub range : Absinfo
range = record { minimum = pos 0; maximum = pos 1000 }

abbrev plain : Pvt ℕ
plain = record (cleared 0 clock) { relative_accel = 160; vscroll_amount = 30; tap_delay = 280000 }

-- A multitouch pad: slots, both positions, tracking ids and pressure (bits 15, 21, 22, 25 and 26 of
-- the second long).
abbrev multitouch : Caps
multitouch = record pad_caps { absbits = 3 ∷ 106987520 ∷ [] }

abbrev set_up : Option (Pvt ℕ)
unfolding evdev_setup bit_check
set_up = evdev_setup 0 clock clock options touch (λ i. some range) multitouch

abbrev pad_state : Pvt ℕ
pad_state = elim set_up [ none ↦ plain | some q ↦ q ]

evdev_setup-Fresh_example : Placed pad_state × Fresh (λ i. some range) multitouch pad_state
unfolding evdev_setup bit_check
evdev_setup-Fresh_example =
    evdev_setup-Fresh 0 clock clock options touch (λ i. some range) multitouch pad_state
      (λ i a e. ground arith) refl

-- The device event12.
check_environ-Exact_example :
    (IsNumber (b'1' ∷ b'2' ∷ [])
      × (check_environ (some (devpfx ++ b'1' ∷ b'2' ∷ []))
          ≡ some (devdir ++ 47 ∷ devpfx ++ b'1' ∷ b'2' ∷ [])))
    ⊎ ((¬ IsNumber (b'1' ∷ b'2' ∷ [])) × (check_environ (some (devpfx ++ b'1' ∷ b'2' ∷ [])) ≡ none))
check_environ-Exact_example = check_environ-Exact (b'1' ∷ b'2' ∷ [])
