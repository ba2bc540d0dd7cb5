-- ===== src/Protocol.antt =====
-- spr16.h: the messages between server and client. A structure is its bytes in the order of the
-- declaration, little-endian, with the padding that the i386 ABI inserts (the Makefile builds for
-- 32-bit pointers). Signed fields are kept as their bit patterns.
pub mod Encoding
use gtscreen.Prelude.{
  ℕ, ◌+◌, ◌*◌, ◌/◌, ◌%◌, ◌^◌, Bool, true, false, List, [], ◌∷◌, ◌++◌, ◌==◌, if◌then◌else◌, get_or,
  take, drop,
}

abbrev pub maxmsglen : ℕ
maxmsglen = 64

abbrev pub maxname : ℕ
maxname = 32

abbrev pub maxclients : ℕ
maxclients = 128

abbrev pub dmg_slots : ℕ
dmg_slots = 32

-- The message types.
abbrev pub msg_servinfo : ℕ
msg_servinfo = 100

abbrev pub msg_register_sprite : ℕ
msg_register_sprite = 101

abbrev pub msg_ack : ℕ
msg_ack = 104

abbrev pub msg_sync : ℕ
msg_sync = 105

abbrev pub msg_input : ℕ
msg_input = 106

abbrev pub msg_input_surface : ℕ
msg_input_surface = 107

-- The codes of an ACK or a NACK.
abbrev pub ack_established : ℕ
ack_established = 1

abbrev pub ack_sync_vsync : ℕ
ack_sync_vsync = 2

abbrev pub ack_recv_fd : ℕ
ack_recv_fd = 4

abbrev pub ack_send_fd : ℕ
ack_send_fd = 5

abbrev pub nack_width : ℕ
nack_width = 7

abbrev pub nack_height : ℕ
nack_height = 8

abbrev pub nack_bpp : ℕ
nack_bpp = 9

abbrev pub nack_shmem : ℕ
nack_shmem = 10

abbrev pub nack_fd : ℕ
nack_fd = 11

abbrev pub nack_disconnect : ℕ
nack_disconnect = 12

abbrev pub flag_direct_shm : ℕ
flag_direct_shm = 1

abbrev pub flag_async : ℕ
flag_async = 1

abbrev pub flag_vblank : ℕ
flag_vblank = 2

abbrev pub flag_page_flip : ℕ
flag_page_flip = 4

pub record MsgHdr : Type 0 where
  pub type : ℕ
  pub bits : ℕ

pub record Servinfo : Type 0 where
  pub width : ℕ
  pub height : ℕ
  pub bpp : ℕ

-- `name` is the whole array of `maxname` bytes.
pub record RegisterSprite : Type 0 where
  pub name : List ℕ
  pub flags : ℕ
  pub width : ℕ
  pub height : ℕ
  pub bpp : ℕ

pub record Ack : Type 0 where
  pub info : ℕ
  pub ack : ℕ

pub record Sync : Type 0 where
  pub xmin : ℕ
  pub ymin : ℕ
  pub xmax : ℕ
  pub ymax : ℕ

pub record Input : Type 0 where
  pub val : ℕ
  pub ext : ℕ
  pub code : ℕ
  pub type : ℕ
  pub id : ℕ

pub record InputSurface : Type 0 where
  pub input : Input
  pub xpos : ℕ
  pub ypos : ℕ
  pub xmax : ℕ
  pub ymax : ℕ

-- The bytes of a uint16_t and of a uint32_t, and the reads at an offset.
abbrev pub put16 : ℕ → List ℕ → List ℕ
put16 x rest = x % 256 ∷ x / 256 % 256 ∷ rest

abbrev pub put32 : ℕ → List ℕ → List ℕ
put32 x rest = x % 256 ∷ x / 256 % 256 ∷ x / 65536 % 256 ∷ x / 16777216 % 256 ∷ rest

abbrev pub get16 : List ℕ → ℕ → ℕ
get16 b i = get_or b i 0 + 256 * get_or b (i + 1) 0

abbrev pub get32 : List ℕ → ℕ → ℕ
get32 b i = get16 b i + 65536 * get16 b (i + 2)

-- sizeof of each structure
abbrev pub hdr_size : ℕ
hdr_size = 4

abbrev pub servinfo_size : ℕ
servinfo_size = 6

abbrev pub register_size : ℕ
register_size = 44

abbrev pub ack_size : ℕ
ack_size = 4

abbrev pub sync_size : ℕ
sync_size = 8

abbrev pub input_size : ℕ
input_size = 12

abbrev pub input_surface_size : ℕ
input_surface_size = 28

-- A message as it is sent, in front of what follows it.
abbrev pub encode_hdr : MsgHdr → List ℕ → List ℕ
encode_hdr h rest = put16 h.type (put16 h.bits rest)

pub encode_servinfo : Servinfo → List ℕ → List ℕ
encode_servinfo m rest = put16 m.width (put16 m.height (put16 m.bpp rest))

-- Two bytes of padding after `bpp`, which the sender clears with `memset`.
pub encode_register : RegisterSprite → List ℕ → List ℕ
encode_register m rest =
    m.name ++ put32 m.flags (put16 m.width (put16 m.height (put16 m.bpp (put16 0 rest))))

pub encode_ack : Ack → List ℕ → List ℕ
encode_ack m rest = put16 m.info (put16 m.ack rest)

pub encode_sync : Sync → List ℕ → List ℕ
encode_sync m rest = put16 m.xmin (put16 m.ymin (put16 m.xmax (put16 m.ymax rest)))

pub encode_input : Input → List ℕ → List ℕ
encode_input m rest = put32 m.val (put32 m.ext (put16 m.code (m.type % 256 ∷ m.id % 256 ∷ rest)))

pub encode_input_surface : InputSurface → List ℕ → List ℕ
unfolding encode_input
encode_input_surface m rest =
    encode_input m.input (put32 m.xpos (put32 m.ypos (put32 m.xmax (put32 m.ymax rest))))

-- The casts of the receiver, `(struct T *)(msgbuf + i)`.
unfoldable pub decode_hdr : List ℕ → ℕ → MsgHdr
decode_hdr b i = record { type = get16 b i; bits = get16 b (i + 2) }

pub decode_servinfo : List ℕ → ℕ → Servinfo
decode_servinfo b i = record { width = get16 b i; height = get16 b (i + 2); bpp = get16 b (i + 4) }

pub decode_register : List ℕ → ℕ → RegisterSprite
decode_register b i = record {
  name = take maxname (drop i b);
  flags = get32 b (i + 32);
  width = get16 b (i + 36);
  height = get16 b (i + 38);
  bpp = get16 b (i + 40);
}

pub decode_ack : List ℕ → ℕ → Ack
decode_ack b i = record { info = get16 b i; ack = get16 b (i + 2) }

pub decode_sync : List ℕ → ℕ → Sync
decode_sync b i = record {
  xmin = get16 b i;
  ymin = get16 b (i + 2);
  xmax = get16 b (i + 4);
  ymax = get16 b (i + 6);
}

pub decode_input : List ℕ → ℕ → Input
decode_input b i = record {
  val = get32 b i;
  ext = get32 b (i + 4);
  code = get16 b (i + 8);
  type = get_or b (i + 10) 0;
  id = get_or b (i + 11) 0;
}

pub decode_input_surface : List ℕ → ℕ → InputSurface
unfolding decode_input
decode_input_surface b i = record {
  input = decode_input b i;
  xpos = get32 b (i + 12);
  ypos = get32 b (i + 16);
  xmax = get32 b (i + 20);
  ymax = get32 b (i + 24);
}
