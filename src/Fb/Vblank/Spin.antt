-- ===== src/Fb/Vblank/Spin.antt =====
-- The loop of drm_fd_callback over the events that were read.
use gtscreen.Prelude.{
  ℕ, zero, suc, ◌+◌, ◌-◌, ◌^◌, ◌%◌, ◌≡◌, ◌≤◌, ◌<◌, refl, Bool, true, false, List, arith, ltb, ◌==◌,
  stuck,
}
use gtscreen.Os.{Os}
use gtscreen.Protocol.{get32}
use gtscreen.Server.State.{S}
use gtscreen.Fb.Vblank.{drm_events, drm_event_vblank}

-- An event of length 0 that is no vblank is handled again and again: no number of rounds is enough.
pub drm_events_spins :
    (os : Os) (k : ℕ) (buf : List ℕ) (n pos : ℕ) (synced : Bool) (s : S)
    → get32 buf (pos + 4) ≡ 0
    → (get32 buf pos == drm_event_vblank) ≡ false
    → pos + 8 ≤ n
    → n < 2 ^ 32
    → drm_events os k buf n pos synced s ≡ stuck
unfolding drm_events
drm_events_spins os zero buf n pos synced s l t h b = refl
drm_events_spins os (suc k) buf n pos synced s l t h b =
    let inside : ltb pos n ≡ true = ground arith in
    let whole : ltb (n - 8) pos ≡ false = ground arith in
    let same : (pos + 0) % 2 ^ 32 ≡ pos = omega arith in
    let room : ltb ((n + 2 ^ 32 - 0) % 2 ^ 32) pos ≡ false = ground arith in
    rw (drm_events, l, t, inside, whole, room, same)
      (drm_events_spins os k buf n pos synced s l t h b)
