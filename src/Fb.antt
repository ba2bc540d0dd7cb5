-- ===== src/Fb.antt =====
-- platform/linux/fb.c: copying a client's damaged regions to the scanout buffer, and what a
-- synchronisation does. The copies are listed, with their offsets and lengths in bytes; the build's
-- PIXL_ALIGN is 32, for which a call of x86_sse2_xmmcpy_1024 copies `count` blocks of 128 bytes.
pub mod Copy
pub mod Vblank
pub mod Regions
use gtscreen.Prelude.{
  ℕ, zero, suc, ◌+◌, ◌-◌, ◌*◌, ◌/◌, ◌%◌, ◌^◌, Bool, true, false, not, Option, none, some, List, [],
  ◌∷◌, ◌++◌, ltb, ◌==◌, if◌then◌else◌, pure, ◌>>=◌, ◌>>◌, Run, ok, fault, stuck, Status, success,
  failure, bit_and,
}
use gtscreen.Os.{Os, World, Answer, done, failed, is_eintr, wait_vblank, enter, set_errno}
use gtscreen.Protocol.{Sync, flag_vblank, flag_page_flip, flag_async}
use gtscreen.Server.State.{Client, Server, Framebuffer, S, Cmd, get, modify, sys, load, store}
use gtscreen.Server.Sprite.{is_direct}

abbrev pub pixl_align : ℕ
pixl_align = 32

pub record Block : Type 0 where
  pub dst : ℕ
  pub src : ℕ
  pub bytes : ℕ

-- The region's columns on the grid: the first pixel, and the first behind the last.
abbrev pub column_start : Sync → ℕ
column_start dmg = dmg.xmin - dmg.xmin % pixl_align

unfoldable pub column_end : ℕ → Sync → ℕ
column_end fb_width dmg =
    let next = (dmg.xmax + 1) % 2 ^ 16 in
    let extent =
      if next % pixl_align == 0
      then next
      else (dmg.xmax + (pixl_align - dmg.xmax % pixl_align)) % 2 ^ 16 in
    if ltb fb_width extent then fb_width else extent

-- One block for each row, from row `y` on.
unfoldable pub copy_rows : ℕ → ℕ → ℕ → ℕ → ℕ → ℕ → ℕ → List Block
copy_rows zero y pitch sprite_width weight x bytes = []
copy_rows (suc k) y pitch sprite_width weight x bytes =
    record {
      dst = (y * pitch + x) % 2 ^ 32;
      src = (y * sprite_width * weight + x) % 2 ^ 32;
      bytes = bytes;
    }
    ∷ copy_rows k (y + 1) pitch sprite_width weight x bytes

-- `none` is the failure on a width that is no multiple of the grid.
unfoldable pub copy_to_fb : Framebuffer → ℕ → ℕ → Sync → Option (List Block)
unfolding column_end copy_rows
copy_to_fb fb pitch sprite_width dmg =
    let weight = fb.bpp / 8 in
    let grid = pixl_align * weight in
    let height = (dmg.ymax - dmg.ymin + 1) % 2 ^ 16 in
    let pixels = (column_end fb.width dmg + 2 ^ 16 - column_start dmg) % 2 ^ 16 in
    let width = pixels * weight % 2 ^ 16 in
    let x = column_start dmg * weight % 2 ^ 16 in
    if width % grid == 0
    then some (copy_rows height dmg.ymin pitch sprite_width weight x (width / grid * grid))
    else none

-- The loop of sync_dmg_to_fb: the blocks so far, and whether every region could be copied.
unfoldable pub copy_all : Framebuffer → ℕ → ℕ → List Sync → List Block × Status
unfolding copy_to_fb
copy_all fb pitch sprite_width [] = ([], success)
copy_all fb pitch sprite_width (dmg ∷ dmgs) =
    let rest = copy_all fb pitch sprite_width dmgs in
    elim (copy_to_fb fb pitch sprite_width dmg) [
      | none ↦ ([], failure)
      | some blocks ↦ (blocks ++ rest.0, rest.1)
    ]

-- A client that renders to the scanout buffer itself needs no copy. On a failure the damage stays.
unfoldable pub sync_dmg_to_fb : ℕ → Cmd (List Block × Status)
unfolding copy_all
sync_dmg_to_fb p = do
  c ← load p
  fb ← get (λ r. r.fb)
  pitch ← get (λ r. r.pitch)
  let r = copy_all fb pitch c.width c.dmg
  if is_direct c.flags
      then pure ([], success)
      else elim r.1 [ failure ↦ pure r | success ↦ do store p (record c { dmg = [] }); pure r ]

-- drm_vblank: 5001 tries, and 0 in any case.
vblank_tries : Os → ℕ → World → World
vblank_tries os zero w = w
vblank_tries os (suc k) w =
    let again = vblank_tries os k (enter wait_vblank w) in
    elim (os.wait_vblank w.log) [
      | done _ ↦ enter wait_vblank w
      | failed e ↦ if is_eintr e then again else set_errno e (enter wait_vblank w)
    ]

pub drm_vblank : Os → World → World × Status
drm_vblank os w = (vblank_tries os 5001 w, success)

abbrev pub has_flag : ℕ → ℕ → Bool
has_flag flags f = not (bit_and flags f == 0)

unfoldable pub fb_sync_client : Os → ℕ → Cmd Status
unfolding sync_dmg_to_fb
fb_sync_client os p = do
  c ← load p
  active ← get (λ r. r.is_active)
  if has_flag c.sync_flags flag_vblank
      then (if active then sys (λ w. drm_vblank os w) else pure success)
      else (if has_flag c.sync_flags flag_page_flip
          then pure failure
          else (if has_flag c.sync_flags flag_async
              then (if active then pure success else (do r ← sync_dmg_to_fb p; pure r.1))
              else pure success))
