-- ===== src/Os.antt =====
-- The operating system and the C library's allocator, as the sources call them. Every call appends
-- to a log, and each answer is a function of the log so far: so any behaviour of the kernel, of
-- other processes and of `malloc` is an `Os`. `errno` is a field of the `World`.
use gtscreen.Prelude.{ℕ, Bool, true, false, Option, List, ◌∷◌}

pub data Errno : Type 0 where
  zero_errno eagain eintr eproto eexist esrch eoverflow econnreset ebadf : Errno
  other : ℕ → Errno

abbrev pub is_eagain : Errno → Bool
is_eagain eagain = true
is_eagain _ = false

abbrev pub is_eintr : Errno → Bool
is_eintr eintr = true
is_eintr _ = false

-- The calls that the models make.
pub data Call : Type 0 where
  malloc : Call
  free : ℕ → Call
  close : ℕ → Call
  epoll_create : Bool → Call
  epoll_ctl_add : ℕ → ℕ → ℕ → ℕ → Call  -- epoll descriptor, descriptor, events, address
  epoll_ctl_del : ℕ → ℕ → Call
  epoll_wait : ℕ → Call
  fcntl_getfl : ℕ → Call
  fcntl_setfl : ℕ → ℕ → Call
  write : ℕ → List ℕ → Call
  read : ℕ → ℕ → Call
  send_fd : ℕ → ℕ → Call
  accept : ℕ → Call
  memfd_create : Call
  ftruncate : ℕ → ℕ → Call
  mmap : ℕ → ℕ → Call
  munmap : ℕ → ℕ → Call
  add_seals : ℕ → ℕ → Call
  get_seals : ℕ → Call
  prime_export : Call
  tcflush : ℕ → Call
  select : ℕ → Call
  wait_vblank : Call
  raise_sigterm : Call
  recvmsg : ℕ → Call
  usleep : Call

pub data Answer (A : Type 0) : Type 0 where
  done : A → Answer A
  failed : Errno → Answer A

-- One entry of the array that `epoll_wait` fills: the event bits and the registered address.
pub record Event : Type 0 where
  pub flags : ℕ
  pub ptr : ℕ

-- What `recvmsg` received: the byte, and the control header with the descriptor in it.
pub record Control : Type 0 where
  pub len : ℕ
  pub level : ℕ
  pub type : ℕ
  pub fd : ℕ

pub record Envelope : Type 0 where
  pub byte : ℕ
  pub control : Option Control

abbrev pub Log : Type 0
Log = List Call

pub record Os : Type 0 where
  pub malloc : Log → Option ℕ
  pub epoll_create : Log → Bool → Answer ℕ
  pub epoll_ctl_add : Log → ℕ → ℕ → ℕ → ℕ → Answer (Unit {0})
  pub epoll_ctl_del : Log → ℕ → ℕ → Answer (Unit {0})
  pub epoll_wait : Log → ℕ → Answer (List Event)
  pub fcntl_getfl : Log → ℕ → Answer ℕ
  pub fcntl_setfl : Log → ℕ → ℕ → Answer (Unit {0})
  pub write : Log → ℕ → List ℕ → Answer ℕ
  pub read : Log → ℕ → ℕ → Answer (List ℕ)
  pub send_fd : Log → ℕ → ℕ → Answer ℕ
  pub accept : Log → ℕ → Answer ℕ
  pub memfd_create : Log → Answer ℕ
  pub ftruncate : Log → ℕ → ℕ → Answer (Unit {0})
  pub mmap : Log → ℕ → ℕ → Answer ℕ
  pub munmap : Log → ℕ → ℕ → Answer (Unit {0})
  pub add_seals : Log → ℕ → ℕ → Answer (Unit {0})
  pub get_seals : Log → ℕ → Answer ℕ
  pub prime_export : Log → Answer (ℕ × ℕ)
  pub select : Log → ℕ → Answer Bool
  pub wait_vblank : Log → Answer (Unit {0})
  pub recvmsg : Log → ℕ → Answer (Option Envelope)

pub record World : Type 0 where
  pub log : Log
  pub errno : Errno

-- The call is made: it goes to the log.
abbrev pub enter : Call → World → World
enter c w = record w { log = c ∷ w.log }

-- A failed call also leaves its error in `errno`.
abbrev pub leave : {A R : Type 0} → Call → World → Answer A → (A → World → R) → (World → R) → R
leave c w a good bad = elim a [
  | done x ↦ good x (enter c w)
  | failed e ↦ bad (record { log = c ∷ w.log; errno = e })
]

abbrev pub set_errno : Errno → World → World
set_errno e w = record w { errno = e }
