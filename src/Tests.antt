-- ===== src/Tests.antt =====
-- Concrete inputs for the theorems, and runs of the models: an operating system on which every call
-- succeeds, and a server with clients. The children follow the program's parts.
pub mod Fdpoll
pub mod Messages
pub mod Damage
pub mod Clients
pub mod Library
pub mod Input
pub mod Start
pub mod Register
pub mod Init
use gtscreen.Prelude.{
  false, refl, arith, ℕ, ◌+◌, ◌==◌, if◌then◌else◌, true, Option, none, some, List, [], ◌∷◌, length,
  replicate,
}
use gtscreen.Os.{Os, World, Errno, zero_errno, Answer, done, failed, eagain}
use gtscreen.Fdpoll.Invariant.{IsValid}
use gtscreen.Fdpoll.{find_node, Node, Handler}
use gtscreen.Fdpoll.Poll.{Loop}
use gtscreen.Server.State.{Client, Screen, Framebuffer, Server, Callback, S, zeroed, client_func}

-- Each call of `malloc` gives a new address.
abbrev pub calm : Os
calm = record {
  malloc = λ log. some (1000 + length log);
  epoll_create = λ log cloexec. done 3;
  epoll_ctl_add = λ log efd fd flags p. done tt;
  epoll_ctl_del = λ log efd fd. done tt;
  epoll_wait = λ log efd. done (record { flags = 16; ptr = 500 } ∷ []);
  fcntl_getfl = λ log fd. done 2;
  fcntl_setfl = λ log fd flags. done tt;
  write = λ log fd msg. done (length msg);
  read = λ log fd n. done (replicate 8 0);
  send_fd = λ log sock fd. done 1;
  accept = λ log fd. done 9;
  memfd_create = λ log. done 11;
  ftruncate = λ log fd size. done tt;
  mmap = λ log fd size. done 4096;
  munmap = λ log addr size. done tt;
  add_seals = λ log fd s. done tt;
  get_seals = λ log fd. done 7;
  prime_export = λ log. done (12, 0);
  select = λ log fd. done true;
  wait_vblank = λ log. done tt;
  recvmsg = λ log sock. done (
      some
        (record { byte = 70; control = some (record { len = 16; level = 1; type = 1; fd = 13 }) }));
}

-- The same with sockets that take nothing.
abbrev pub clogged : Os
clogged = record calm { write = λ log fd msg. failed eagain }

abbrev pub quiet_world : World
quiet_world = record { log = []; errno = zero_errno }

abbrev pub fb_64x2 : Framebuffer
fb_64x2 = record { addr = 8192; size = 512; width = 64; height = 2; bpp = 32 }

-- A client with memory on socket 5, and one without on socket 6.
abbrev pub shown : Client
shown = record zeroed {
  shmem_addr = 4096;
  width = 64;
  height = 2;
  bpp = 32;
  connected = true;
  socket = 5;
}

abbrev pub fresh : Client
fresh = record zeroed { shmem_fd = none; socket = 6 }

abbrev pub registered : Client
registered = record fresh { handshaking = true }

abbrev pub callback : ℕ → Callback
callback d = record { func = client_func; user_data = d }

abbrev pub table : Handler Callback
table = record {
  fdpoll_fd = 3;
  count = 2;
  max = 16;
  list =
      record { addr = 500; fd = 5; cb = some (callback 1) }
      ∷ record { addr = 600; fd = 6; cb = some (callback 2) }
      ∷ [];
}

-- Client 50 on the only screen; client 60 is pending.
abbrev pub server : Server
server = record {
  main_screen = record { addr = 70; clients = 50 ∷ [] } ∷ [];
  cb_data = record { addr = 1; cl = 50 } ∷ record { addr = 2; cl = 60 } ∷ [];
  pending = 60 ∷ [];
  sync_clients = none ∷ none ∷ [];
  fb = fb_64x2;
  devices = [];
  free_list = [];
  listen_fd = 4;
  is_active = true;
  pitch = 256;
  sfb_size = 512;
  msgbuf = replicate 1024 0;
  mute = record { muted = false; unmute = false };
  clients = λ p. if p == 50 then some shown else if p == 60 then some fresh else none;
}

abbrev pub state : S
state = record { handler = table; world = quiet_world; rest = server }

pub table-IsValid : IsValid table
unfolding find_node
table-IsValid = record {
  counted = refl;
  apart = (refl, (refl, tt));
  bounded = ground arith;
  within = ground arith;
}
