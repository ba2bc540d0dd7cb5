-- ===== src/Server/Init.antt =====
-- server.c: the log, the listening socket and spr16_server_init. What the system calls answer is an
-- argument.
pub mod Listening
use gtscreen.Prelude.{
  ℕ, ◌+◌, Bool, true, false, not, ◌||◌, Option, none, some, List, [], ◌∷◌, ◌++◌, map, leb, length,
  if◌then◌else◌, Status, success, failure, pos, replicate,
}
use gtscreen.Os.{Os, World, malloc, free, close, enter}
use gtscreen.Fdpoll.{Handler, add}
use gtscreen.Server.State.{Server, Framebuffer, Device}
use gtscreen.Server.Clients.{fdpollin}
use gtscreen.Start.{Text}
use gtscreen.Input.Register.{Reader, Entry, Registry, Surroundings, load_linux_input_drivers}

-- SPR16_SOCKPATH, "/tmp/spr16".
abbrev pub sockpath : Text
sockpath = 47 ∷ b't' ∷ b'm' ∷ b'p' ∷ 47 ∷ b's' ∷ b'p' ∷ b'r' ∷ b'1' ∷ b'6' ∷ []

-- The size of `sun_path` of a `struct sockaddr_un`.
abbrev pub sun_path_size : ℕ
sun_path_size = 108

abbrev pub max_clients : ℕ
max_clients = 128

-- The answers: of `socket`, of `seteuid` with the real and with the effective user, of `bind`,
-- `listen`, and of `open` and `dup2` for the log.
pub record Answers : Type 0 where
  pub socket : Option ℕ
  pub to_real : Bool
  pub bound : Bool
  pub to_effective : Bool
  pub listening : Bool
  pub log_file : Option ℕ
  pub duplicated : Bool

unfoldable pub open_log : Answers → Status
open_log a = elim a.log_file [ none ↦ failure | some _ ↦ if a.duplicated then success else failure ]

-- `listener`: the callback of a table's node that is listener_callback, from its `user_data`.
module _ {C : Type 0} (os : Os) (listener : ℕ → C) (a : Answers) where
  abbrev pub closed : ℕ → Handler C → World → Handler C × World × Option ℕ
  closed sock h w = (h, enter (close sock) w, none)

  -- A log that fails leaves the handler in the table.
  unfoldable pub listen_on : ℕ → ℕ → Handler C → World → Handler C × World × Option ℕ
  unfolding open_log
  listen_on self sock h w =
      let added = add os h (pos sock) fdpollin (some (listener self)) w in
      elim added.2 [
        | failure ↦ closed sock added.0 added.1
        | success ↦ elim (open_log a) [
          | failure ↦ (added.0, added.1, none)
          | success ↦ (added.0, added.1, some sock)
        ]
      ]

  unfoldable pub bind_socket : ℕ → ℕ → Handler C → World → Handler C × World × Option ℕ
  unfolding listen_on
  bind_socket self sock h w =
      if not a.to_real
      then (h, w, none)
      else if not a.bound
      then closed sock h w
      else if not a.to_effective
      then (h, w, none)
      else if not a.listening
      then closed sock h w
      else listen_on self sock h w

  unfoldable pub server_create_socket : Text → ℕ → Handler C → World → Handler C × World × Option ℕ
  unfolding bind_socket
  server_create_socket sockname self h w =
      if leb sun_path_size (length (sockpath ++ 47 ∷ sockname))
      then (h, w, none)
      else elim a.socket [ none ↦ (h, w, none) | some sock ↦ bind_socket self sock h w ]

-- calloc and the assignments. The callback data, the screens and the clients are empty; the heap of
-- clients and the message buffer are not part of the structure and stay.
abbrev pub fresh_server : Server → Framebuffer → ℕ → List Device → Server
fresh_server before fb sock devices = record before {
  main_screen = [];
  cb_data = [];
  pending = [];
  sync_clients = replicate max_clients none;
  fb = fb;
  devices = devices;
  free_list = [];
  listen_fd = sock;
  is_active = true;
}

-- A device with no button down: 324 codes take 11 longs.
abbrev pub as_device : Entry ℕ → Device
as_device e = record {
  addr = e.addr;
  fd = some e.fd;
  device_id = e.device_id;
  has_hotkey = e.has_hotkey;
  driver = e.driver;
  btn_down = replicate 11 0;
}

module _ {C : Type 0} (os : Os) (reader : Reader → ℕ → C) (listener : ℕ → C) where
  -- The input drivers of a server whose socket listens: no stream, and evdev with the hotkeys.
  unfoldable pub with_drivers :
      Surroundings ℕ → Server → Framebuffer → ℕ → Registry ℕ C → Registry ℕ C × Option Server
  with_drivers env before fb sock r =
      let loaded = load_linux_input_drivers os reader env 0 true true (record r { devices = [] }) in
      (loaded, some (fresh_server before fb sock (map as_device loaded.devices)))

  unfoldable pub started :
      Surroundings ℕ
      → Server
      → Framebuffer
      → ℕ
      → Registry ℕ C
      → Handler C × World × Option ℕ
      → Registry ℕ C × Option Server
  unfolding with_drivers
  started env before fb self r (h, w, none) =
      (record r { handler = h; world = enter (free self) w }, none)
  started env before fb self r (h, w, some sock) =
      with_drivers env before fb sock (record r { handler = h; world = w })

  -- `before` holds the parts of the state that are not in the structure.
  unfoldable pub spr16_server_init :
      Answers
      → Surroundings ℕ
      → Server
      → Framebuffer
      → Text
      → Registry ℕ C
      → Registry ℕ C × Option Server
  unfolding started server_create_socket
  spr16_server_init a env before fb sockname r =
      let w = enter malloc r.world in
      elim (os.malloc r.world.log) [
        | none ↦ (record r { world = w }, none)
        | some self ↦
            started env before fb self r
              (server_create_socket os listener a sockname self r.handler w)
      ]
