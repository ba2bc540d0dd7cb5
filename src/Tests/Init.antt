-- ===== src/Tests/Init.antt =====
-- The start of a server: one whose log can be opened, and one whose log cannot.
use gtscreen.Prelude.{ℕ, ◌≡◌, refl, true, none, some, [], ◌∷◌, map}
use gtscreen.Fdpoll.{add}
use gtscreen.Input.Buttons.{bit_check, bit_count}
use gtscreen.Input.Discover.{probably_surface, find_device, possibly_keyboard, check_environ}
use gtscreen.Input.Setup.{evdev_setup}
use gtscreen.Input.Register.{load_linux_input_drivers}
use gtscreen.Server.Init.{Answers, spr16_server_init}
use gtscreen.Tests.{calm, server, fb_64x2}
use gtscreen.Tests.Start.{event_name}
use gtscreen.Tests.Register.{numbered, surroundings, no_devices}

abbrev listener : ℕ → ℕ × ℕ
listener self = (4, self)

abbrev willing : Answers
willing = record {
  socket = some 6;
  to_real = true;
  bound = true;
  to_effective = true;
  listening = true;
  log_file = some 8;
  duplicated = true;
}

abbrev logless : Answers
logless = record willing { log_file = none }

-- The pad, the socket, and the handler from before.
three_nodes :
    map
      (λ n. n.fd)
      (spr16_server_init calm numbered listener willing surroundings server fb_64x2 event_name
        no_devices).0.handler.list
    ≡ 7 ∷ 6 ∷ 5 ∷ []
unfolding spr16_server_init load_linux_input_drivers find_device possibly_keyboard probably_surface
    bit_check bit_count evdev_setup add check_environ
three_nodes = refl

-- The socket's node is left behind.
two_nodes :
    map
      (λ n. n.fd)
      (spr16_server_init calm numbered listener logless surroundings server fb_64x2 event_name
        no_devices).0.handler.list
    ≡ 6 ∷ 5 ∷ []
unfolding spr16_server_init add
two_nodes = refl
