-- ===== src/Client/Handshake/Memory.antt =====
-- The memory of the client: what recv_fd leaves when it succeeds.
use gtscreen.Prelude.{
  ℕ, zero, suc, ◌*◌, ◌/◌, ◌%◌, ◌^◌, sym, ap, subst, ◌∙◌, ◌≡◌, ◌<◌, refl, ◌⊎◌, inl, inr, false, ◌||◌,
  Option, none, some, arith, Status, success, failure, Bool-cases, Option-cases, M, Returns,
  Returns-bind, Returns-mono, ◌==◌, ◌>>=◌, pure,
}
use gtscreen.Os.{Os, World, Log, Errno, done, failed, is_eintr, is_eagain, mmap, usleep, enter}
use gtscreen.Protocol.{ack_established, ack_send_fd}
use gtscreen.Message.{send_ack}
use gtscreen.Message.Write.{Answer-cases}
use gtscreen.Message.Descriptor.{afunix_recv_fd}
use gtscreen.Client.{Program, open_shmem, Sprite}
use gtscreen.Client.Handshake.{accept_memory, await_fd, request_fd, refuse}

-- The size of a sprite, as a size_t of 32 bits.
abbrev pub sprite_size : Sprite → ℕ
sprite_size d = d.bpp / 8 * d.width * d.height % 2 ^ 32

-- A descriptor that was received on the socket.
abbrev pub Received : Os → ℕ → ℕ → Type 0
Received os sock fd = (w : World) × ((afunix_recv_fd os sock w).1 ≡ some fd)

-- The handshake is over, and a descriptor that was received is mapped, in the size of the sprite
-- that was registered, at an address other than NULL.
abbrev pub Mapped : {C D : Type 0} → Os → ℕ → Sprite → Program C D → Type 0
Mapped os sock sprite t =
    (t.handshaking ≡ false)
    × (0 < t.sprite.addr)
    × (t.sprite.size ≡ sprite_size sprite)
    × Received os sock t.sprite.fd
    × ((log : Log) × (os.mmap log t.sprite.fd (sprite_size sprite) ≡ done t.sprite.addr))

-- What went wrong: an ACK could not be sent, a try to receive gave no descriptor, or the memory could
-- not be mapped.
pub data Unserved (os : Os) (sock size : ℕ) : Type 0 where
  unsent : (info : ℕ) (w : World) → (send_ack os sock info w).1 ≡ failure → Unserved os sock size
  unreceived : (w : World) → (afunix_recv_fd os sock w).1 ≡ none → Unserved os sock size
  unmapped :
      (log : Log) (fd : ℕ) (e : Errno) → os.mmap log fd size ≡ failed e → Unserved os sock size
  null : (log : Log) (fd : ℕ) → os.mmap log fd size ≡ done 0 → Unserved os sock size

abbrev pub Served : {C D : Type 0} → Os → ℕ → Sprite → Status → Program C D → Type 0
Served os sock sprite r t =
    ((r ≡ failure) × Unserved os sock (sprite_size sprite))
    ⊎ ((r ≡ success) × Mapped os sock sprite t)

module _ {C D : Type 0} (os : Os) where
  accept_memory-Served :
      (fd : ℕ) (s : Program C D)
      → Received os s.socket fd
      → Returns (accept_memory os fd s) (Served os s.socket s.sprite)
  unfolding accept_memory open_shmem refuse
  accept_memory-Served fd s got =
      elim (Answer-cases (os.mmap s.world.log fd (sprite_size s.sprite))) [
        | inr (x, k) ↦
            rw (accept_memory, open_shmem, ◌>>=◌, k) (inl (refl, unmapped s.world.log fd x k))
        | inl (a, k) ↦ elim (Bool-cases (a == 0)) [
          | inl z ↦
              rw (accept_memory, open_shmem, ◌>>=◌, k, z)
                (inl (refl, null s.world.log fd (k ∙ ap done (ground arith))))
          | inr n ↦ go a k n (send_ack os s.socket ack_established (after s)).1 refl
        ]
      ]
    where
      after : Program C D → World
      after s = enter (mmap fd (sprite_size s.sprite)) s.world

      go :
          (a : ℕ)
          → os.mmap s.world.log fd (sprite_size s.sprite) ≡ done a
          → (a == 0) ≡ false
          → (r : Status) → (send_ack os s.socket ack_established (after s)).1 ≡ r
          → Returns (accept_memory os fd s) (Served os s.socket s.sprite)
      go a k n failure e =
          rw (accept_memory, open_shmem, ◌>>=◌, k, n, e)
            (inl (refl, unsent ack_established (after s) e))
      go a k n success e =
          rw (accept_memory, open_shmem, ◌>>=◌, k, n, e)
            (inr (refl, (refl, ground arith, refl, got, (s.world.log, k))))

  -- The sprite and the socket stay, and the descriptor was received, or a try gave none.
  abbrev Awaited : Program C D → Option ℕ → Program C D → Type 0
  Awaited s o t =
      (t.sprite ≡ s.sprite)
      × (t.socket ≡ s.socket)
      × (((o ≡ none) × ((w : World) × ((afunix_recv_fd os s.socket w).1 ≡ none)))
          ⊎ ((fd : ℕ) × (o ≡ some fd) × Received os s.socket fd))

  abbrev retried : Program C D → Program C D
  retried s = record s { world = enter usleep (afunix_recv_fd os s.socket s.world).0 }

  -- One try, with the rest of the tries.
  await_fd-suc :
      (k : ℕ) (s : Program C D)
      → ((afunix_recv_fd os s.socket s.world).1 ≡ none
          → Returns (await_fd os k (retried s)) (Awaited s))
      → Returns (await_fd os (suc k) s) (Awaited s)
  unfolding await_fd refuse
  await_fd-suc k s again = elim (Option-cases (afunix_recv_fd os s.socket s.world).1) [
    | inr (fd, e) ↦ rw (await_fd, e) (refl, refl, inr (fd, refl, (s.world, e)))
    | inl e ↦
        let v : World = (afunix_recv_fd os s.socket s.world).0 in
        elim (Bool-cases (is_eintr v.errno || is_eagain v.errno)) [
          | inl t ↦ rw (await_fd, e, t) (again e)
          | inr f ↦ rw (await_fd, e, f) (refl, refl, inl (refl, (s.world, e)))
        ]
  ]

  await_fd-Awaited : (k : ℕ) (s : Program C D) → Returns (await_fd os (suc k) s) (Awaited s)
  unfolding await_fd refuse
  await_fd-Awaited zero s = await_fd-suc zero s (λ e. (refl, refl, inl (refl, (s.world, e))))
  await_fd-Awaited (suc k) s = await_fd-suc (suc k) s (λ e. await_fd-Awaited k (retried s))

  -- Once its buffer is clear, the client gets its memory or fails; the call ends without a fault. If
  -- it succeeds, then the handshake is over, and a descriptor that was received is mapped, in the
  -- size of the registered sprite, at an address other than NULL. If it fails, then an ACK could not
  -- be sent, a try to receive gave no descriptor, or the memory could not be mapped.
  pub request_fd-Mapped :
      (s : Program C D) → Returns (request_fd os s) (Served os s.socket s.sprite)
  unfolding request_fd
  request_fd-Mapped s = go (send_ack os s.socket ack_send_fd s.world).1 refl
    where
      moved :
          (t : Program C D) (r : Status) (u : Program C D)
          → t.sprite ≡ s.sprite
          → t.socket ≡ s.socket
          → Served os t.socket t.sprite r u
          → Served os s.socket s.sprite r u
      moved t r u a b x =
          subst (λ k. Served os k s.sprite r u) b (subst (λ q. Served os t.socket q r u) a x)

      later :
          (o : Option ℕ) (t : Program C D)
          → Awaited s o t
          → Returns
              ((elim o as (λ _. M (Program C D) Status) [
                | none ↦ pure failure
                | some fd ↦ accept_memory os fd
              ])
                t)
              (Served os s.socket s.sprite)
      later none t (a, b, inl (_, (w, e))) = inl (refl, unreceived w e)
      later none t (a, b, inr (fd, e, _)) = absurd (ground arith)
      later (some fd) t (a, b, inl (e, _)) = absurd (ground arith)
      later (some fd) t (a, b, inr (g, e, got)) =
          let same : g ≡ fd = ground arith in
          Returns-mono (accept_memory os fd t) _ _
            (accept_memory-Served fd t (
              subst (λ k. Received os k fd) (sym b) (subst (λ h. Received os s.socket h) same got)))
            (λ r u x. moved t r u a b x)

      go :
          (r : Status)
          → (send_ack os s.socket ack_send_fd s.world).1 ≡ r
          → Returns (request_fd os s) (Served os s.socket s.sprite)
      go failure e = rw (request_fd, ◌>>=◌, e) (inl (refl, unsent ack_send_fd s.world e))
      go success e =
          let t : Program C D = record s { world = (send_ack os s.socket ack_send_fd s.world).0 } in
          rw (request_fd, ◌>>=◌, e)
            (Returns-bind (await_fd {C = C} {D = D} os 4999) _ t (Awaited s) _
              (await_fd-Awaited 4998 t) later)
