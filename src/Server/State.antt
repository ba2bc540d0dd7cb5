-- ===== src/Server/State.antt =====
-- The state of the server, `struct server_context` with the globals it uses, and access to it.
use gtscreen.Prelude.{
  ℕ, ◌≡◌, arith, Bool, true, false, Option, none, some, List, [], ◌∷◌, ◌==◌, if◌then◌else◌, ok,
  fault, M, pure, ◌>>=◌, Status, failure,
}
use gtscreen.Os.{Os, World, Call, enter, malloc, set_errno, Errno}
use gtscreen.Protocol.{Sync}
use gtscreen.Input.Driver.{Pvt, Mute}
use gtscreen.Fdpoll.{Handler}
use gtscreen.Fdpoll.Poll.{Loop}

-- `struct client` with its `struct spr16`. A descriptor -1 is `none`; a NULL address is 0. `dmg` is
-- the first `dmg_count` slots of the array.
pub record Client : Type 0 where
  pub shmem_addr : ℕ
  pub shmem_fd : Option ℕ
  pub shmem_size : ℕ
  pub flags : ℕ
  pub width : ℕ
  pub height : ℕ
  pub bpp : ℕ
  pub dmg : List Sync
  pub sync_flags : ℕ
  pub syncing : Bool
  pub handshaking : Bool
  pub connected : Bool
  pub recv_fd_wait : Bool
  pub socket : ℕ

-- `struct screen`; the head of `clients` is the focused client.
pub record Screen : Type 0 where
  pub addr : ℕ
  pub clients : List ℕ

-- `struct cl_cb_data`
pub record CbData : Type 0 where
  pub addr : ℕ
  pub cl : ℕ

pub record Framebuffer : Type 0 where
  pub addr : ℕ
  pub size : ℕ
  pub width : ℕ
  pub height : ℕ
  pub bpp : ℕ

-- `struct input_device` at its address, less its names: `btn_down` is its array of longs, `driver` its
-- `private` (floats are bit patterns), and `has_hotkey` tells whether func_hotkey is set.
pub record Device : Type 0 where
  pub addr : ℕ
  pub fd : Option ℕ
  pub device_id : ℕ
  pub has_hotkey : Bool
  pub driver : Option (Pvt ℕ)
  pub btn_down : List ℕ

-- The functions that the server registers with the poll handler, and their `user_data`.
pub data Func : Type 0 where
  listener_func client_func drm_func evdev_func ascii_func raw_func : Func

pub record Callback : Type 0 where
  pub func : Func
  pub user_data : ℕ

-- `free_list` is the first `free_count` slots of the array; `is_active` is the global g_is_active,
-- `msgbuf` is g_msgbuf, `mute` the globals of the input, and `pitch` and `sfb_size` describe the scanout buffer of g_card0.
pub record Server : Type 0 where
  pub main_screen : List Screen
  pub cb_data : List CbData
  pub pending : List ℕ
  pub sync_clients : List (Option ℕ)
  pub fb : Framebuffer
  pub devices : List Device
  pub free_list : List ℕ
  pub listen_fd : ℕ
  pub is_active : Bool
  pub pitch : ℕ
  pub sfb_size : ℕ
  pub msgbuf : List ℕ
  pub mute : Mute
  pub clients : ℕ → Option Client

abbrev pub S : Type 0
S = Loop Callback Server

abbrev pub Cmd : Type 0 → Type 0
Cmd A = M S A

-- A part of the server's own state, and its change.
abbrev pub get : {A : Type 0} → (Server → A) → Cmd A
get f s = ok (f s.rest) s

abbrev pub modify : (Server → Server) → Cmd (Unit {0})
modify f s = ok tt (record s { rest = f s.rest })

-- A function on the state of the operating system.
abbrev pub sys : {A : Type 0} → (World → World × A) → Cmd A
sys f s = ok (f s.world).1 (record s { world = (f s.world).0 })

abbrev pub call : Call → Cmd (Unit {0})
call c s = ok tt (record s { world = enter c s.world })

abbrev pub fail_with : Errno → Cmd Status
fail_with e s = ok failure (record s { world = set_errno e s.world })

-- A function on the handler table.
abbrev pub poller : {A : Type 0} → (Handler Callback → World → Handler Callback × World × A) → Cmd A
poller f s = let r = f s.handler s.world in ok r.2 (record s { handler = r.0; world = r.1 })

-- Reading a client through its address; a freed one is a fault.
abbrev pub load : ℕ → Cmd Client
load p s = elim (s.rest.clients p) [ none ↦ fault | some c ↦ ok c s ]

abbrev pub update : (ℕ → Option Client) → ℕ → Option Client → ℕ → Option Client
update h p c q = if p == q then c else h q

-- The address holds a client.
abbrev pub Alive : S → ℕ → Type 0
Alive s p = (c : Client) × (s.rest.clients p ≡ some c)

pub update_same : (h : ℕ → Option Client) (p : ℕ) (c : Option Client) → update h p c p ≡ c
update_same h p c = ground arith

abbrev pub store : ℕ → Client → Cmd (Unit {0})
store p c = modify λ r. record r { clients = update r.clients p (some c) }

abbrev pub release : ℕ → Cmd (Unit {0})
release p = modify λ r. record r { clients = update r.clients p none }

-- `calloc` of a client: every field is zero.
abbrev pub zeroed : Client
zeroed = record {
  shmem_addr = 0;
  shmem_fd = some 0;
  shmem_size = 0;
  flags = 0;
  width = 0;
  height = 0;
  bpp = 0;
  dmg = [];
  sync_flags = 0;
  syncing = false;
  handshaking = false;
  connected = false;
  recv_fd_wait = false;
  socket = 0;
}

abbrev pub allocate : Os → Cmd (Option ℕ)
allocate os = sys λ w. (enter malloc w, os.malloc w.log)

-- The first client of a chain that has the socket `fd`: `screen_find_client` and the other walks.
unfoldable pub find_client : List ℕ → ℕ → Cmd (Option ℕ)
find_client [] fd = pure none
find_client (p ∷ ps) fd = do
  c ← load p
  let rest = find_client ps fd
  if c.socket == fd then pure (some p) else rest

-- spr16_server_activate, spr16_server_deactivate and spr16_server_is_active.
abbrev pub server_activate : Cmd (Unit {0})
server_activate = modify λ r. record r { is_active = true }

abbrev pub server_deactivate : Cmd (Unit {0})
server_deactivate = modify λ r. record r { is_active = false }

abbrev pub server_is_active : Cmd Bool
server_is_active = get λ r. r.is_active
