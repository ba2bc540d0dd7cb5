-- ===== src/Server/Sync.antt =====
-- server.c, accumulate_dmg to spr16_server_sync, and server_sync_fullscreen: a client's damaged
-- regions, and the array of clients to synchronise.
pub mod Damage
pub mod Request
use gtscreen.Prelude.{
  ℕ, ◌+◌, ◌%◌, Bool, true, false, ◌||◌, Option, none, some, List, [], ◌∷◌, ◌++◌, ltb, leb, ◌==◌,
  if◌then◌else◌, length, set, get_or, pure, ◌>>=◌, ◌>>◌, Run, ok, fault, stuck, Status, success,
  failure, bit_or,
}
use gtscreen.Protocol.{Sync, dmg_slots}
use gtscreen.Server.State.{Client, Server, Screen, Framebuffer, Cmd, get, modify, load, store}

-- The smallest region around two.
abbrev pub merge : Sync → Sync → Sync
merge old dmg = record {
  xmin = if ltb dmg.xmin old.xmin then dmg.xmin else old.xmin;
  ymin = if ltb dmg.ymin old.ymin then dmg.ymin else old.ymin;
  xmax = if ltb old.xmax dmg.xmax then dmg.xmax else old.xmax;
  ymax = if ltb old.ymax dmg.ymax then dmg.ymax else old.ymax;
}

-- With all slots used the last one grows. (`dmg` is its default only outside the array.)
unfoldable pub accumulate_dmg : List Sync → Sync → List Sync
accumulate_dmg dmgs dmg =
    if ltb (length dmgs) dmg_slots
    then dmgs ++ dmg ∷ []
    else set dmgs 31 (merge (get_or dmgs 31 dmg) dmg)

-- The array with `p` in its first empty slot.
unfoldable pub take_slot : List (Option ℕ) → ℕ → Option (List (Option ℕ))
take_slot [] p = none
take_slot (none ∷ slots) p = some (some p ∷ slots)
take_slot (some q ∷ slots) p = elim (take_slot slots p) [
  | none ↦ none
  | some slots' ↦ some (some q ∷ slots')
]

unfoldable pub add_sync_client : ℕ → Cmd Status
unfolding take_slot
add_sync_client p = do
  c ← load p
  slots ← get (λ r. r.sync_clients)
  if c.syncing then pure success else elim (take_slot slots p) [
    | none ↦ pure failure
    | some slots' ↦ do
      modify (λ r. record r { sync_clients = slots' })
      store p (record c { syncing = true })
      pure success
  ]

-- The test of the requested region against the framebuffer.
abbrev pub bad_region : Framebuffer → Sync → Bool
bad_region fb r =
    leb fb.width r.xmax
    || leb fb.height r.ymax
    || leb fb.width r.xmin
    || leb fb.height r.ymin
    || ltb r.xmax r.xmin
    || ltb r.ymax r.ymin

-- spr16_server_sync from the damage on. `flags & ~SPRITESYNC_FLAG_MASK`, the mask being 7, is
-- nonzero from 8 on.
unfoldable pub sync_flagged : ℕ → Client → ℕ → Cmd Status
unfolding add_sync_client
sync_flagged p c flags =
    if leb 8 flags
    then pure failure
    else if flags == 0
    then pure success
    else do store p (record c { sync_flags = bit_or c.sync_flags flags }); add_sync_client p

-- spr16_server_sync behind the test of the region.
unfoldable pub sync_region : Framebuffer → ℕ → ℕ → Sync → Cmd Status
unfolding accumulate_dmg sync_flagged
sync_region fb p flags region = do
  c ← load p
  let c' = record c { dmg = accumulate_dmg c.dmg region }
  if (fb.addr == 0) || (c.shmem_addr == 0)
      then pure failure
      else (do store p c'; sync_flagged p c' flags)

unfoldable pub server_sync : ℕ → ℕ → Sync → Cmd Status
unfolding sync_region
server_sync p flags region = do
  fb ← get (λ r. r.fb)
  if bad_region fb region then pure failure else sync_region fb p flags region

-- The whole sprite of a client, from (0, 0) to (width - 1, height - 1) as uint16_t.
abbrev pub whole_sprite : Client → Sync
whole_sprite c = record {
  xmin = 0;
  ymin = 0;
  xmax = (c.width + 65535) % 65536;
  ymax = (c.height + 65535) % 65536;
}

-- ASYNC | VBLANK
abbrev fullscreen_flags : ℕ
fullscreen_flags = 3

unfoldable pub sync_all : List ℕ → Cmd (Unit {0})
unfolding server_sync
sync_all [] = pure tt
sync_all (p ∷ ps) = do c ← load p; _ ← server_sync p fullscreen_flags (whole_sprite c); sync_all ps

abbrev first_clients : List Screen → List ℕ
first_clients [] = []
first_clients (scrn ∷ _) = scrn.clients

unfoldable pub sync_fullscreen : Cmd (Unit {0})
unfolding sync_all
sync_fullscreen = do screens ← get (λ r. r.main_screen); sync_all (first_clients screens)
