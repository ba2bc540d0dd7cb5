-- ===== src/Server/Sprite/Registration.antt =====
-- spr16_server_register_sprite: what a client has to have done, and what it gets.
use gtscreen.Prelude.{
  ℕ, ◌*◌, ◌/◌, ◌%◌, ◌^◌, ◌≤◌, ◌<◌, ◌≡◌, refl, ◌⊎◌, inl, inr, true, false, ◌||◌, none, some, arith,
  Returns, Returns-bind, Returns-mono, pure, Status, success, failure, ok, Option-cases, Bool-cases,
  ◌==◌, if◌then◌else◌, ◌>>=◌, ap, subst, ◌∙◌,
}
use gtscreen.Os.{
  Os, World, Log, Errno, done, failed, enter, memfd_create, ftruncate, mmap, add_seals,
  prime_export,
}
use gtscreen.Protocol.{RegisterSprite, ack_recv_fd}
use gtscreen.Message.{send_ack}
use gtscreen.Message.Write.{Answer-cases}
use gtscreen.Server.State.{Client, Framebuffer, S, update_same, update}
use gtscreen.Server.Clients.{getclient, is_failure}
use gtscreen.Server.Sprite.{
  register_sprite, share_memory, refusal, requested, announce, export_direct, export_memfd,
  create_memfd, make_memfd, map_memfd, seals, is_direct,
}

-- A sprite that the framebuffer can show.
abbrev pub Fits : Framebuffer → RegisterSprite → Type 0
Fits fb reg =
    (0 < reg.width)
    × (reg.width ≤ fb.width)
    × (0 < reg.height)
    × (reg.height ≤ fb.height)
    × (8 ≤ reg.bpp)
    × (reg.bpp ≤ fb.bpp)

refused-Fits :
    (fb : Framebuffer) (reg : RegisterSprite) (n : ℕ) → refusal fb reg ≡ some n → ¬ Fits fb reg
refused-Fits fb reg n e fits = ground arith

refusal-Fits : (fb : Framebuffer) (reg : RegisterSprite) → refusal fb reg ≡ none → Fits fb reg
refusal-Fits fb reg e = ground arith

-- The bytes of a sprite, as the server counts them.
abbrev pub bytes_of : RegisterSprite → ℕ
bytes_of reg = reg.width * reg.height * (reg.bpp % 256 / 8) % 2 ^ 32

-- The memory at `a` is a mapping of a descriptor that the kernel gave for it: of the scanout buffer
-- if the client asked for that, with the buffer's size, or of a new memory file of the sprite's size.
abbrev pub Memory : Os → RegisterSprite → ℕ → ℕ → ℕ → ℕ → Type 0
Memory os reg sfb_size memfd a n =
    ((log : Log) × (os.mmap log memfd (bytes_of reg) ≡ done a))
    × (((is_direct reg.flags ≡ true)
          × ((log : Log) × (y : ℕ) × (os.prime_export log ≡ done (memfd, y)))
          × (0 < a)
          × (n ≡ sfb_size))
        ⊎ ((is_direct reg.flags ≡ false)
            × ((log : Log) × (os.memfd_create log ≡ done memfd))
            × (0 < n)
            × (n ≡ bytes_of reg)))

-- The client as a registration leaves it.
abbrev pub enrolled : Client → RegisterSprite → ℕ → ℕ → ℕ → Client
enrolled c reg memfd a n = record c {
  handshaking = true;
  recv_fd_wait = true;
  width = reg.width;
  height = reg.height;
  bpp = reg.bpp;
  flags = reg.flags;
  shmem_fd = some memfd;
  shmem_addr = a;
  shmem_size = n;
}

-- The client has registered this sprite, has its memory, and is to ask for it.
abbrev pub Registered : Os → ℕ → Client → RegisterSprite → ℕ → S → Type 0
Registered os p c reg sfb_size t =
    (memfd a n : ℕ) × (t.rest.clients p ≡ some (enrolled c reg memfd a n))
    × Memory os reg sfb_size memfd a n

-- What went wrong: the sprite's size comes to no bytes in 32 bits, the scanout buffer could not be
-- exported or mapped, no memory file could be made and mapped, or the ACK could not be sent.
pub data Unshared (os : Os) (fd size : ℕ) : Type 0 where
  unsent : (w : World) → (send_ack os fd ack_recv_fd w).1 ≡ failure → Unshared os fd size
  unexported : (log : Log) (e : Errno) → os.prime_export log ≡ failed e → Unshared os fd size
  unmapped : (log : Log) (g : ℕ) (e : Errno) → os.mmap log g size ≡ failed e → Unshared os fd size
  null : (log : Log) (g : ℕ) → os.mmap log g size ≡ done 0 → Unshared os fd size
  empty : size ≡ 0 → Unshared os fd size
  unmade : (w : World) → (make_memfd os size w).1 ≡ none → Unshared os fd size

-- Memory that could be mapped.
map_memfd_lem :
    (os : Os) (memfd size : ℕ) (w : World) (a : ℕ)
    → (map_memfd os memfd size w).1 ≡ some a
    → os.mmap w.log memfd size ≡ done a
unfolding map_memfd
map_memfd_lem os memfd size w a h = elim (Answer-cases (os.mmap w.log memfd size)) [
  | inr (x, k) ↦ let z = rw (map_memfd, k) at h in absurd (ground arith)
  | inl (b, k) ↦
      let v = enter (mmap memfd size) w in
      elim (Answer-cases (os.add_seals v.log memfd seals)) [
        | inr (x, l) ↦ let z = rw (map_memfd, k, l) at h in absurd (ground arith)
        | inl (b1, l) ↦
            let u = enter (add_seals memfd seals) v in
            elim (Answer-cases (os.get_seals u.log memfd)) [
              | inr (x, m) ↦ let z = rw (map_memfd, k, l, m) at h in absurd (ground arith)
              | inl (found, m) ↦ elim (Bool-cases (found == seals)) [
                | inr f ↦ let z = rw (map_memfd, k, l, m, f) at h in absurd (ground arith)
                | inl t ↦ let z = rw (map_memfd, k, l, m, t) at h in k ∙ ap done (ground arith)
              ]
            ]
      ]
]

-- A memory file that could be made: the calls that gave it.
make_memfd-Made :
    (os : Os) (size : ℕ) (w : World) (memfd a : ℕ)
    → (make_memfd os size w).1 ≡ some (memfd, a)
    → ((log : Log) × (os.mmap log memfd size ≡ done a))
      × ((log : Log) × (os.memfd_create log ≡ done memfd))
unfolding make_memfd
make_memfd-Made os size w memfd a h = elim (Answer-cases (os.memfd_create w.log)) [
  | inr (x, k) ↦ let z = rw (make_memfd, k) at h in absurd (ground arith)
  | inl (g, k) ↦
      let v = enter memfd_create w in
      elim (Answer-cases (os.ftruncate v.log g size)) [
        | inr (x, l) ↦ let z = rw (make_memfd, k, l) at h in absurd (ground arith)
        | inl (b, l) ↦
            let u = enter (ftruncate g size) v in
            elim (Option-cases (map_memfd os g size u).1) [
              | inl m ↦ let z = rw (make_memfd, k, l, m) at h in absurd (ground arith)
              | inr (b, m) ↦
                  let z = rw (make_memfd, k, l, m) at h in
                  let same : g ≡ memfd = ground arith in
                  let at_a : b ≡ a = ground arith in
                  (
                    (
                      u.log,
                      subst (λ x. os.mmap u.log x size ≡ done a) same
                          (map_memfd_lem os g size u b m ∙ ap done at_a),
                    ),
                    (w.log, k ∙ ap done same),
                  )
            ]
      ]
]

module _ (os : Os) (fd p : ℕ) (c : Client) (reg : RegisterSprite) (sfb_size : ℕ) where
  -- The client has the sprite's memory, or what failed.
  abbrev Exported : Status → S → Type 0
  Exported r t =
      ((r ≡ failure) × Unshared os fd (bytes_of reg))
      ⊎ ((r ≡ success)
          × ((memfd a n : ℕ) × (t.rest.clients p
                ≡ some (record (requested c reg) {
                  shmem_fd = some memfd;
                  shmem_addr = a;
                  shmem_size = n;
                }))
              × Memory os reg sfb_size memfd a n))

  export_direct-Exported :
      (s : S)
      → s.rest.clients p ≡ some (requested c reg)
      → s.rest.sfb_size ≡ sfb_size
      → is_direct reg.flags ≡ true
      → Returns (export_direct os fd p s) Exported
  unfolding export_direct
  export_direct-Exported s e sfb direct = elim (Answer-cases (os.prime_export s.world.log)) [
    | inr (x, k) ↦ rw (export_direct, ◌>>=◌, e, k) (inl (refl, unexported s.world.log x k))
    | inl ((f, y), k) ↦
        let w = enter prime_export s.world in
        elim (Answer-cases (os.mmap w.log f (bytes_of reg))) [
          | inr (x, l) ↦ rw (export_direct, ◌>>=◌, e, k, l) (inl (refl, unmapped w.log f x l))
          | inl (a, l) ↦ elim (Bool-cases (a == 0)) [
            | inl z ↦
                rw (export_direct, ◌>>=◌, e, k, l, z)
                  (inl (refl, null w.log f (l ∙ ap done (ground arith))))
            | inr nz ↦
                rw (export_direct, ◌>>=◌, e, k, l, nz)
                  (inr (
                    refl,
                    (
                      f,
                      a,
                      s.rest.sfb_size,
                      update_same s.rest.clients p _,
                      ((w.log, l), inl (direct, (s.world.log, y, k), ground arith, sfb)),
                    ),
                  ))
          ]
        ]
  ]

  export_memfd-Exported :
      (s : S)
      → s.rest.clients p ≡ some (requested c reg)
      → is_direct reg.flags ≡ false
      → Returns (export_memfd os fd p s) Exported
  unfolding export_memfd create_memfd
  export_memfd-Exported s e direct = elim (Bool-cases (bytes_of reg == 0)) [
    | inl z ↦ rw (export_memfd, create_memfd, ◌>>=◌, e, z) (inl (refl, empty (ground arith)))
    | inr nz ↦ elim (Option-cases (make_memfd os (bytes_of reg) s.world).1) [
      | inl k ↦ rw (export_memfd, create_memfd, ◌>>=◌, e, nz, k) (inl (refl, unmade s.world k))
      | inr ((f, a), k) ↦
          let made = make_memfd-Made os (bytes_of reg) s.world f a k in
          rw (export_memfd, create_memfd, ◌>>=◌, e, nz, k)
            (inr (
              refl,
              (
                f,
                a,
                bytes_of reg,
                update_same s.rest.clients p _,
                (made.0, inr (direct, made.1, ground arith, refl)),
              ),
            ))
    ]
  ]

  -- A registration of a sprite that fits.
  abbrev pub Shared : Status → S → Type 0
  Shared r t =
      ((r ≡ failure) × Unshared os fd (bytes_of reg))
      ⊎ ((r ≡ success) × Registered os p c reg sfb_size t)

  announce-Shared :
      (s : S) (memfd a n : ℕ)
      → s.rest.clients p
        ≡ some (record (requested c reg) { shmem_fd = some memfd; shmem_addr = a; shmem_size = n })
      → Memory os reg sfb_size memfd a n
      → Returns (announce os fd p s) Shared
  unfolding announce
  announce-Shared s memfd a n e memory = go (send_ack os fd ack_recv_fd s.world).1 refl
    where
      go :
          (r : Status)
          → (send_ack os fd ack_recv_fd s.world).1 ≡ r
          → Returns (announce os fd p s) Shared
      go failure k = rw (announce, ◌>>=◌, e, k) (inl (refl, unsent s.world k))
      go success k =
          rw (announce, ◌>>=◌, e, k)
            (inr (
              refl,
              (memfd, a, n, update_same s.rest.clients p (some (enrolled c reg memfd a n)), memory),
            ))

  share_memory-Shared :
      (s : S)
      → s.rest.clients p ≡ some (requested c reg)
      → s.rest.sfb_size ≡ sfb_size
      → Returns (share_memory os fd p reg.flags s) Shared
  unfolding share_memory
  share_memory-Shared s e sfb =
      Returns-bind (if is_direct reg.flags then export_direct os fd p else export_memfd os fd p) _ s
        Exported Shared exported next
    where
      exported :
          Returns
            ((if is_direct reg.flags then export_direct os fd p else export_memfd os fd p) s)
            Exported
      exported = elim (Bool-cases (is_direct reg.flags)) [
        | inl t ↦ rw t (export_direct-Exported s e sfb t)
        | inr f ↦ rw f (export_memfd-Exported s e f)
      ]

      next :
          (r : Status) (t : S)
          → Exported r t
          → Returns ((if is_failure r then pure failure else announce os fd p) t) Shared
      next failure t (inl (_, why)) = inl (refl, why)
      next success t (inl (k, why)) = absurd (ground arith)
      next failure t (inr (k, _)) = absurd (ground arith)
      next success t (inr (_, (memfd, a, n, at, memory))) = announce-Shared t memfd a n at memory

-- What a registration leaves: a request of a client that registered before, or whose sprite does not
-- fit, changes nothing of the server; any other gets its memory, or fails for one of the reasons.
abbrev pub Outcome : Os → ℕ → ℕ → Client → RegisterSprite → S → Status → S → Type 0
Outcome os fd p c reg s r t =
    ((r ≡ failure)
      × (t.rest ≡ s.rest)
      × (((c.handshaking || c.connected) ≡ true) ⊎ (¬ Fits s.rest.fb reg)))
    ⊎ (((c.handshaking || c.connected) ≡ false)
        × Fits s.rest.fb reg
        × Shared os fd p c reg s.rest.sfb_size r t)

-- A request to register a sprite, on a socket for which the search finds a live client, ends without
-- a fault. It fails, and changes nothing of the server's own state, if the client has registered
-- before or if its sprite is empty, larger than the framebuffer, of less than 8 bits or of more than
-- the framebuffer. Any other request succeeds or fails. On success the client has the sprite's sizes
-- and flags, is to ask for its memory, and has that memory, mapped in the sprite's size in 32 bits:
-- the scanout buffer, at an address other than NULL, if it asked for that, and else a new memory file
-- of that size, which is not 0. On failure that size is 0, the scanout buffer could not be exported
-- or not be mapped other than at NULL, no memory file could be made and mapped, or the ACK could not
-- be sent.
pub register_sprite-Outcome :
    (os : Os) (fd p : ℕ) (reg : RegisterSprite) (c : Client) (s : S)
    → getclient fd s ≡ ok (some p) s
    → s.rest.clients p ≡ some c
    → Returns (register_sprite os fd reg s) (Outcome os fd p c reg s)
unfolding register_sprite
register_sprite-Outcome os fd p reg c s found e = elim (Bool-cases (c.handshaking || c.connected)) [
  | inl busy ↦ rw (register_sprite, ◌>>=◌, found, e, busy) (inl (refl, refl, inl busy))
  | inr idle ↦ elim (Option-cases (refusal s.rest.fb reg)) [
    | inr (n, k) ↦
        rw (register_sprite, ◌>>=◌, found, e, idle, k)
          (inl (refl, refl, inr (refused-Fits s.rest.fb reg n k)))
    | inl k ↦
        let u : S = record s {
          rest = record s.rest { clients = update s.rest.clients p (some (requested c reg)) };
        } in
        rw (register_sprite, ◌>>=◌, found, e, idle, k)
          (Returns-mono (share_memory os fd p reg.flags u) _ _
            (share_memory-Shared os fd p c reg s.rest.sfb_size u (update_same s.rest.clients p _)
              refl)
            (λ r t x. inr (idle, refusal-Fits s.rest.fb reg k, x)))
  ]
]
