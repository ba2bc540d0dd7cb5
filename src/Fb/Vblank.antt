-- ===== src/Fb/Vblank.antt =====
-- platform/linux/fb.c, fb_drm_fd_callback: the events of the DRM descriptor. The first vblank event
-- of a read copies the damage of the focused client and tells it so.
pub mod Spin
use gtscreen.Prelude.{
  ℕ, zero, suc, ◌+◌, ◌-◌, ◌^◌, ◌%◌, Bool, true, false, not, ◌||◌, Option, none, some, List, [], ◌∷◌,
  ltb, leb, ◌==◌, if◌then◌else◌, length, pure, ◌>>=◌, ◌>>◌, Run, ok, fault, stuck, Status, success,
  failure,
}
use gtscreen.Os.{Os, World, Answer, done, failed, is_eintr, read, enter, set_errno}
use gtscreen.Protocol.{get32, ack_sync_vsync}
use gtscreen.Fdpoll.Poll.{Code, code_ok, code_remove, is_set, hup_err}
use gtscreen.Message.{send_ack}
use gtscreen.Server.State.{Client, Server, Screen, S, Cmd, get, modify, sys, load}
use gtscreen.Server.Devices.{ask}
use gtscreen.Server.Clients.{is_failure}
use gtscreen.Fb.{sync_dmg_to_fb}

-- sizeof(struct drm_event), DRM_EVENT_VBLANK
abbrev pub drm_event_size : ℕ
drm_event_size = 8

abbrev pub drm_event_vblank : ℕ
drm_event_vblank = 1

abbrev focused : List Screen → Option ℕ
focused [] = none
focused (scrn ∷ _) = elim scrn.clients [ [] ↦ none | p ∷ _ ↦ some p ]

-- The copy for one vblank event, and whether it was done.
unfoldable pub on_vblank : Os → Bool → Cmd Bool
on_vblank os synced = do
  scrns ← get (λ r. r.main_screen)
  if synced then pure true else elim (focused scrns) [
    | none ↦ pure false
    | some p ↦ do
      r ← sync_dmg_to_fb p
      c ← load p
      if is_failure r.1
          then pure false
          else (do _ ← sys (λ w. send_ack os c.socket ack_sync_vsync w); pure true)
  ]

-- The loop over the `n` bytes that were read. The differences are taken modulo 2 ^ 32, as the code
-- does; an event of length 0 would repeat for ever.
unfoldable pub drm_events : Os → ℕ → List ℕ → ℕ → ℕ → Bool → Cmd Code
drm_events os zero buf n pos synced s = stuck
drm_events os (suc k) buf n pos synced s =
    let len = get32 buf (pos + 4) in
    let next = λ (b : Bool). drm_events os k buf n ((pos + len) % 2 ^ 32) b in
    let step =
      (if get32 buf pos == drm_event_vblank
        then (do b ← on_vblank os synced; next b)
        else next synced) in
    if not (ltb pos n)
    then ok code_ok s
    else if ltb (n - drm_event_size) pos
    then ok code_remove s
    else if ltb ((n + 2 ^ 32 - len) % 2 ^ 32) pos
    then ok code_remove s
    else step s

-- `read` again after EINTR.
read_again : Os → ℕ → ℕ → Cmd (Answer (List ℕ))
read_again os zero fd s = stuck
read_again os (suc k) fd s =
    let w = enter (read fd 4096) s.world in
    let again = read_again os k fd (record s { world = w }) in
    elim (os.read s.world.log fd 4096) [
      | done bytes ↦ ok (done bytes) (record s { world = w })
      | failed e ↦ if is_eintr e then again else ok (failed e) (record s { world = set_errno e w })
    ]

unfoldable pub drm_fd_callback : Os → ℕ → ℕ → ℕ → Cmd Code
unfolding read_again
drm_fd_callback os fuel fd flags = if is_set flags hup_err then pure code_remove else (do
  r ← read_again os fuel fd
  elim r [
    | failed _ ↦ pure code_remove
    | done buf ↦
        if ltb (length buf) drm_event_size
        then pure code_remove
        else drm_events os fuel buf (length buf) 0 false
  ])
