-- ===== src/Tests/Damage.antt =====
-- Damage and its copy: inputs for the theorems, and runs.
use gtscreen.Prelude.{
  ℕ, ◌+◌, ◌*◌, ◌≤◌, ◌≡◌, refl, true, false, none, some, List, [], ◌∷◌, arith, All, Returns, stuck,
}
use gtscreen.Protocol.{Sync}
use gtscreen.Server.State.{S}
use gtscreen.Server.Sync.{server_sync, merge}
use gtscreen.Server.Sync.Request.{Served, server_sync-Damaged}
use gtscreen.Fb.Regions.{Shown, sync_dmg_to_fb-Shown}
use gtscreen.Fb.{sync_dmg_to_fb, Block, copy_to_fb}
use gtscreen.Fb.Copy.{Geometry, copied, Within, copy_to_fb-copied, copy_to_fb_overruns}
use gtscreen.Fb.Vblank.{drm_events}
use gtscreen.Fb.Vblank.Spin.{drm_events_spins}
use gtscreen.Tests.{calm, fb_64x2, shown, state, server}

abbrev region : Sync
region = record { xmin = 3; ymin = 0; xmax = 40; ymax = 1 }

server_sync-Damaged_example : Returns (server_sync 50 1 region state) (Served 40 1 50 1)
server_sync-Damaged_example =
    server_sync-Damaged 50 1 region state shown 40 1 refl (ground arith, tt)
      (ground arith, ground arith, ground arith, ground arith) (ground arith) (ground arith) refl

fb_64x2-Geometry : Geometry fb_64x2 256 64
fb_64x2-Geometry =
    (refl, refl, ground arith, ground arith, ground arith, ground arith, ground arith)

copy_to_fb-copied_example :
    (blocks : List Block) × (copy_to_fb fb_64x2 256 64 region ≡ some blocks)
    × (copied (1 * 256 + (40 * 4 + 3)) (1 * 64 * 4 + (40 * 4 + 3)) blocks ≡ true)
    × All (Within (2 * 256)) blocks
copy_to_fb-copied_example =
    copy_to_fb-copied fb_64x2 256 64 region 40 1 3 fb_64x2-Geometry
      (ground arith, ground arith, ground arith, ground arith) refl (ground arith)

-- The client 50 with one damaged region.
abbrev damaged : S
damaged = record state {
  rest = record server { clients = λ p. some (record shown { dmg = region ∷ [] }) };
}

sync_dmg_to_fb-Shown_example :
    Returns
      (sync_dmg_to_fb 50 damaged)
      (λ r t. Shown fb_64x2 256 64 40 1 3 r × (t.rest.clients 50 ≡ some shown))
sync_dmg_to_fb-Shown_example =
    sync_dmg_to_fb-Shown 50 (record shown { dmg = region ∷ [] }) damaged 40 1 3 refl refl
      fb_64x2-Geometry ((ground arith, ground arith, ground arith, ground arith), tt) refl
      (ground arith)

copy_to_fb_overruns_example :
    (blocks : List Block) × (copy_to_fb fb_64x2 256 64 region ≡ some blocks)
    × (d : ℕ) × (s : ℕ) × (copied d s blocks ≡ true)
    × (1 * 64 * 4 ≤ s)
copy_to_fb_overruns_example =
    copy_to_fb_overruns fb_64x2 256 64 1 region fb_64x2-Geometry refl (ground arith)

-- An event of type 2 and length 0.
abbrev event : List ℕ
event = 2 ∷ 0 ∷ 0 ∷ 0 ∷ 0 ∷ 0 ∷ 0 ∷ 0 ∷ []

drm_events_spins_example : drm_events calm 100 event 8 0 false state ≡ stuck
drm_events_spins_example =
    drm_events_spins calm 100 event 8 0 false state refl refl (ground arith) (ground arith)

-- A width of 48 pixels is not on the grid: a region at the right edge is not copied.
copy_off_grid :
    copy_to_fb (record fb_64x2 { width = 48 }) 192 48 (record region { xmax = 47 }) ≡ none
unfolding copy_to_fb
copy_off_grid = refl

-- The first region of the client covers both requests once all slots are used.
merge_run :
    merge region (record { xmin = 0; ymin = 1; xmax = 9; ymax = 1 })
    ≡ record { xmin = 0; ymin = 0; xmax = 40; ymax = 1 }
merge_run = refl
