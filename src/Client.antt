-- ===== src/Client.antt =====
-- platform/linux/client.c: the client's side of a connection. `C` stands for the function pointers of
-- the program that uses the library, `D` for its own state. A descriptor is its bit pattern.
pub mod Handshake
pub mod Messages
pub mod Update
pub mod Connect
use gtscreen.Prelude.{
  ℕ, ◌*◌, ◌/◌, ◌%◌, ◌^◌, ◌-◌, Bool, true, false, ◌||◌, Option, none, some, List, [], ◌∷◌, ◌++◌, ltb,
  leb, ◌==◌, if◌then◌else◌, length, take, replicate, Run, ok, fault, stuck, M, pure, ◌>>=◌, ◌>>◌,
  Status, success, failure,
}
use gtscreen.Os.{Os, World, Answer, Call, done, failed, mmap, close, enter, set_errno, Errno}
use gtscreen.Protocol.{
  Servinfo, RegisterSprite, msg_register_sprite, maxname, encode_hdr, encode_register,
}
use gtscreen.Message.{write_msg}

-- `struct spr16` of the client, with the shared memory.
pub record Sprite : Type 0 where
  pub flags : ℕ
  pub width : ℕ
  pub height : ℕ
  pub bpp : ℕ
  pub addr : ℕ
  pub size : ℕ
  pub fd : ℕ

-- The globals of the library; `world` and `app` are the rest of the program.
pub record Program (C D : Type 0) : Type 0 where
  pub servinfo_func : Option C
  pub input_func : Option C
  pub surface_func : Option C
  pub servinfo : Servinfo
  pub sprite : Sprite
  pub wait_vsync : Bool
  pub handshaking : Bool
  pub socket : ℕ
  pub epoll_fd : ℕ
  pub msgbuf : List ℕ
  pub world : World
  pub app : D

-- The descriptor -1.
abbrev pub no_fd : ℕ
no_fd = 4294967295

abbrev pub no_servinfo : Servinfo
no_servinfo = record { width = 0; height = 0; bpp = 0 }

abbrev pub no_sprite : Sprite
no_sprite = record { flags = 0; width = 0; height = 0; bpp = 0; addr = 0; size = 0; fd = 0 }

-- The name as `snprintf` cuts it, behind it the zeros of `memset`.
abbrev pub padded : List ℕ → List ℕ
padded name = let cut = take (maxname - 1) name in cut ++ replicate (maxname - length cut) 0

abbrev pub register_msg : List ℕ → ℕ → ℕ → ℕ → List ℕ
register_msg name width height flags =
    encode_hdr (record { type = msg_register_sprite; bits = 0 })
      (encode_register
        (record { name = padded name; flags = flags; width = width; height = height; bpp = 32 }) [])

module _ {C D : Type 0} where
  -- A function on the state of the operating system.
  abbrev pub on_world : {A : Type 0} → (World → World × A) → M (Program C D) A
  on_world f s = ok (f s.world).1 (record s { world = (f s.world).0 })

  abbrev pub error : Errno → M (Program C D) Status
  error e s = ok failure (record s { world = set_errno e s.world })

  abbrev pub change : (Program C D → Program C D) → M (Program C D) (Unit {0})
  change f s = ok tt (f s)

  -- spr16_client_init
  unfoldable pub client_init : M (Program C D) Status
  client_init = do
    change (λ s. record s {
      servinfo_func = none;
      input_func = none;
      surface_func = none;
      servinfo = no_servinfo;
      sprite = no_sprite;
      wait_vsync = false;
      handshaking = true;
      socket = no_fd;
      epoll_fd = no_fd;
    })
    pure success

  abbrev pub set_input_handler : Option C → M (Program C D) Status
  set_input_handler f s = ok success (record s { input_func = f })

  abbrev pub set_input_surface_handler : Option C → M (Program C D) Status
  set_input_surface_handler f s = ok success (record s { surface_func = f })

  abbrev pub set_servinfo_handler : Option C → M (Program C D) Status
  set_servinfo_handler f s = ok success (record s { servinfo_func = f })

  -- spr16_client_handshake_start
  unfoldable pub handshake_start : Os → List ℕ → ℕ → ℕ → ℕ → M (Program C D) Status
  handshake_start os name width height flags s =
      let w = write_msg os s.socket (register_msg name width height flags) s.world in
      let t = record s { world = w.0 } in
      if ltb s.servinfo.width width || ltb s.servinfo.height height
      then ok failure s
      else elim w.1 [
        | failure ↦ ok failure t
        | success ↦ ok success (record t {
          sprite = record (s.sprite) { flags = flags; width = width; height = height; bpp = 32 };
        })
      ]

  -- spr16_open_shmem: a size_t has 32 bits.
  unfoldable pub open_shmem : Os → ℕ → M (Program C D) Status
  open_shmem os fd s =
      let size = s.sprite.bpp / 8 * s.sprite.width * s.sprite.height % 2 ^ 32 in
      let w = enter (mmap fd size) s.world in
      elim (os.mmap s.world.log fd size) [
        | failed e ↦ ok failure (record s { world = set_errno e w })
        | done addr ↦
            if addr == 0
            then ok failure (record s { world = w })
            else ok success (record s {
              world = w;
              sprite = record (s.sprite) { addr = addr; size = size; fd = fd };
            })
      ]

  -- spr16_client_shutdown
  unfoldable pub client_shutdown : M (Program C D) Status
  client_shutdown s = ok success (record s {
    servinfo = no_servinfo;
    sprite = no_sprite;
    world = enter (close s.socket) (enter (close s.epoll_fd) s.world);
    socket = no_fd;
    epoll_fd = no_fd;
  })

  module _ (call_servinfo : C → Servinfo → M (Program C D) Status) where
    -- spr16_client_servinfo: the description is expected once.
    unfoldable pub client_servinfo : Servinfo → M (Program C D) Status
    client_servinfo info s =
        let t = record s { servinfo = info } in
        let next : Run (Program C D) Status = elim s.servinfo_func [
          | none ↦ ok success t
          | some f ↦ call_servinfo f info t
        ] in
        if s.servinfo.bpp == 0
        then (if (info.bpp == 0) || (info.width == 0) || (info.height == 0)
            then ok failure s
            else next)
        else ok failure s
