-- ===== src/Server/Sprite.antt =====
-- server.c, spr16_create_memfd and spr16_server_register_sprite: the handshake's first half, in
-- which a client registers its sprite and the server sets up the memory that they share.
pub mod Registration
use gtscreen.Prelude.{
  ℕ, ◌+◌, ◌*◌, ◌/◌, ◌%◌, ◌^◌, Bool, true, false, ◌||◌, not, Option, none, some, List, [], ◌∷◌, ◌++◌,
  ltb, leb, ◌==◌, if◌then◌else◌, pure, ◌>>=◌, ◌>>◌, Run, ok, fault, stuck, Status, success, failure,
  bit_and,
}
use gtscreen.Os.{
  Os, World, Answer, done, failed, Errno, close, memfd_create, ftruncate, mmap, munmap, add_seals,
  get_seals, prime_export, enter, set_errno,
}
use gtscreen.Protocol.{
  RegisterSprite, nack_width, nack_height, nack_bpp, nack_shmem, ack_recv_fd, flag_direct_shm,
}
use gtscreen.Message.{send_ack, send_nack}
use gtscreen.Server.State.{Client, Server, Framebuffer, S, Cmd, get, modify, sys, call, load, store}
use gtscreen.Server.Clients.{getclient, is_failure}

-- One system call on the server's world, and its answer.
abbrev pub answer : {A : Type 0} → World → Answer A → World
answer w (done _) = w
answer w (failed e) = set_errno e w

-- F_SEAL_SEAL | F_SEAL_SHRINK | F_SEAL_GROW
abbrev pub seals : ℕ
seals = 7

-- `width * height * (bpp / 8)` as a uint32_t, with `bpp` cut to a uint8_t.
abbrev pub memfd_size : Client → ℕ
memfd_size c = c.width * c.height * (c.bpp % 256 / 8) % 2 ^ 32

-- Why the memory could not be set up: what has to be undone.
undo_memfd : ℕ → Option (ℕ × ℕ) → World → World
undo_memfd memfd none w = enter (close memfd) w
undo_memfd memfd (some (addr, size)) w = enter (munmap addr size) (enter (close memfd) w)

-- spr16_create_memfd from the call of `mmap` on. MAP_FAILED is not NULL, so `munmap` is called then
-- too; `addr` 0 stands for MAP_FAILED here.
unfoldable pub map_memfd : Os → ℕ → ℕ → World → World × Option ℕ
unfolding undo_memfd
map_memfd os memfd size w = elim (os.mmap w.log memfd size) [
  | failed e ↦ (undo_memfd memfd (some (0, size)) (set_errno e (enter (mmap memfd size) w)), none)
  | done addr ↦
      let v = enter (mmap memfd size) w in
      elim (os.add_seals v.log memfd seals) [
        | failed e ↦ (
          undo_memfd memfd (some (addr, size)) (set_errno e (enter (add_seals memfd seals) v)),
          none,
        )
        | done _ ↦
            let u = enter (add_seals memfd seals) v in
            elim (os.get_seals u.log memfd) [
              | failed e ↦ (
                undo_memfd memfd (some (addr, size)) (set_errno e (enter (get_seals memfd) u)),
                none,
              )
              | done found ↦
                  if found == seals
                  then (enter (get_seals memfd) u, some addr)
                  else (undo_memfd memfd (some (addr, size)) (enter (get_seals memfd) u), none)
            ]
      ]
]

-- The descriptor and the address, for a memory of `size` bytes.
unfoldable pub make_memfd : Os → ℕ → World → World × Option (ℕ × ℕ)
unfolding map_memfd
make_memfd os size w = elim (os.memfd_create w.log) [
  | failed e ↦ (set_errno e (enter memfd_create w), none)
  | done memfd ↦
      let v = enter memfd_create w in
      elim (os.ftruncate v.log memfd size) [
        | failed e ↦ (undo_memfd memfd none (set_errno e (enter (ftruncate memfd size) v)), none)
        | done _ ↦
            let r = map_memfd os memfd size (enter (ftruncate memfd size) v) in
            elim r.1 [ none ↦ (r.0, none) | some addr ↦ (r.0, some (memfd, addr)) ]
      ]
]

unfoldable pub create_memfd : Os → ℕ → Cmd Status
unfolding make_memfd
create_memfd os p = do
  c ← load p
  if memfd_size c == 0 then pure failure else (do
    made ← sys (λ w. make_memfd os (memfd_size c) w)
    elim made [
      | none ↦ pure failure
      | some (memfd, addr) ↦ do
        store p (record c { shmem_size = memfd_size c; shmem_addr = addr; shmem_fd = some memfd })
        pure success
    ])

-- drm_prime_export_fd gives a descriptor; `mmap` then maps the scanout buffer. The length is that of
-- `memfd_size`, as a size_t of 32 bits.
unfoldable pub export_direct : Os → ℕ → ℕ → Cmd Status
export_direct os fd p = do
  c ← load p
  size ← get (λ r. r.sfb_size)
  exported ←
      sys (λ w. (answer (enter prime_export w) (os.prime_export w.log), os.prime_export w.log))
  elim exported [
    | failed _ ↦ do _ ← sys (λ w. send_nack os fd nack_shmem w); pure failure
    | done (prime_fd, _) ↦ do
      let n = memfd_size c
      mapped ← sys (λ w.
          (answer (enter (mmap prime_fd n) w) (os.mmap w.log prime_fd n), os.mmap w.log prime_fd n))
      elim mapped [
        | failed _ ↦ pure failure
        | done addr ↦ if addr == 0 then pure failure else (do
          store p (record c { shmem_addr = addr; shmem_fd = some prime_fd; shmem_size = size })
          pure success)
      ]
  ]

unfoldable pub export_memfd : Os → ℕ → ℕ → Cmd Status
unfolding create_memfd
export_memfd os fd p = do
  r ← create_memfd os p
  if is_failure r
      then (do _ ← sys (λ w. send_nack os fd nack_shmem w); pure failure)
      else pure success

-- The fields that a registration sets before the memory exists.
abbrev pub requested : Client → RegisterSprite → Client
requested c reg = record c {
  handshaking = true;
  bpp = reg.bpp;
  width = reg.width;
  height = reg.height;
  shmem_size = reg.bpp / 8 * reg.width * reg.height % 2 ^ 32;
  shmem_addr = 0;
  flags = reg.flags;
}

-- Which NACK a request gets, in the order of the tests.
abbrev pub refusal : Framebuffer → RegisterSprite → Option ℕ
refusal fb reg =
    if ltb fb.width reg.width || (reg.width == 0)
    then some nack_width
    else if ltb fb.height reg.height || (reg.height == 0)
    then some nack_height
    else if ltb fb.bpp reg.bpp || ltb reg.bpp 8
    then some nack_bpp
    else none

abbrev pub is_direct : ℕ → Bool
is_direct flags = not (bit_and flags flag_direct_shm == 0)

-- The descriptor is announced; the client waits for nothing else until it asks for it.
unfoldable pub announce : Os → ℕ → ℕ → Cmd Status
announce os fd p = do
  r ← sys (λ w. send_ack os fd ack_recv_fd w)
  c ← load p
  if is_failure r
      then pure failure
      else (do store p (record c { recv_fd_wait = true }); pure success)

unfoldable pub share_memory : Os → ℕ → ℕ → ℕ → Cmd Status
unfolding announce export_direct export_memfd
share_memory os fd p flags = do
  r ← if is_direct flags then export_direct os fd p else export_memfd os fd p
  if is_failure r then pure failure else announce os fd p

unfoldable pub register_sprite : Os → ℕ → RegisterSprite → Cmd Status
unfolding share_memory
register_sprite os fd reg = do
  found ← getclient fd
  elim found [
    | none ↦ pure failure
    | some p ↦ do
      c ← load p
      fb ← get (λ r. r.fb)
      if c.handshaking || c.connected then pure failure else elim (refusal fb reg) [
        | some nack ↦ do _ ← sys (λ w. send_nack os fd nack w); pure failure
        | none ↦ do store p (requested c reg); share_memory os fd p reg.flags
      ]
  ]
