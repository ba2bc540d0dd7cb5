-- ===== src/Tests/Register.antt =====
-- Loading the drivers: an ascii stream and a pad.
use gtscreen.Prelude.{ℕ, ◌≡◌, refl, true, none, some, [], ◌∷◌, map}
use gtscreen.Fdpoll.{Node, add}
use gtscreen.Input.Buttons.{bit_check, bit_count}
use gtscreen.Input.Discover.{
  capable, probably_surface, find_device, possibly_keyboard, check_environ,
}
use gtscreen.Input.Setup.{evdev_setup}
use gtscreen.Input.Register.{
  Reader, evdev_reader, ascii_reader, raw_reader, Registry, Opened, Surroundings,
  load_linux_input_drivers,
}
use gtscreen.Tests.{calm, quiet_world}
use gtscreen.Tests.Start.{options, pad_caps, event_name, clock, range}

-- A callback is the number of the function with the address of the device.
abbrev pub numbered : Reader → ℕ → ℕ × ℕ
numbered evdev_reader a = (1, a)
numbered ascii_reader a = (2, a)
numbered raw_reader a = (3, a)

abbrev pad_opened : Opened
pad_opened = record {
  fd = 7;
  name = some event_name;
  caps = some pad_caps;
  ranges = λ i. some range;
}

abbrev pub surroundings : Surroundings ℕ
surroundings = record {
  zero_f = 0;
  epoch = clock;
  now = λ cls. clock;
  options = options;
  variable = λ cls. none;
  dir = λ cls. some ((event_name, capable pad_caps) ∷ []);
  opened = λ path. some pad_opened;
  trackpad = true;
}

-- A handler for descriptor 5 is there before.
abbrev pub earlier : Node (ℕ × ℕ)
earlier = record { addr = 900; fd = 5; cb = some (0, 0) }

abbrev pub no_devices : Registry ℕ (ℕ × ℕ)
no_devices = record {
  handler = record { fdpoll_fd = 3; count = 1; max = 100; list = earlier ∷ [] };
  world = quiet_world;
  devices = [];
  new_id = 0;
}

-- The pad is listed first, with id 2, and the stream has id 1.
two_devices :
    map
      (λ d. d.device_id)
      (load_linux_input_drivers calm numbered surroundings 1 true true no_devices).devices
    ≡ 2 ∷ 1 ∷ []
unfolding load_linux_input_drivers find_device possibly_keyboard probably_surface bit_check
    bit_count evdev_setup add check_environ
two_devices = refl
