-- ===== src/Input/Evdev/Transceive.antt =====
-- platform/linux/input.c, transceive_evdev: the read of a device, and the whole callback.
use gtscreen.Prelude.{
  ℕ, zero, suc, ◌*◌, ◌/◌, ◌%◌, Bool, not, ◌||◌, Option, List, ltb, ◌==◌, if◌then◌else◌, pure, ◌>>=◌,
  ok, stuck, length,
}
use gtscreen.Os.{Os, Answer, done, failed, is_eintr, is_eagain, read, enter}
use gtscreen.Protocol.{Input}
use gtscreen.Fdpoll.Poll.{Code, code_ok, code_remove}
use gtscreen.Server.State.{Cmd, get}
use gtscreen.Server.Devices.{failing}
use gtscreen.Input.Driver.{Mute, Pvt, Timespec}
use gtscreen.Input.Pointer.{Float}
use gtscreen.Input.Evdev.{get_focused_client, update_state, event_size, events_of}
use gtscreen.Input.Evdev.Events.{evdev_loop, tap_click}

-- The read, again after EINTR.
unfoldable pub read_events : Os → ℕ → ℕ → ℕ → Cmd (Answer (List ℕ))
read_events os zero fd n s = stuck
read_events os (suc k) fd n s =
    let r = os.read s.world.log fd n in
    let t = record s { world = failing (enter (read fd n) s.world) r } in
    let again = read_events os k fd n t in
    elim r [ done b ↦ ok (done b) t | failed e ↦ if is_eintr e then again else ok (failed e) t ]

-- EV_BUF
abbrev pub ev_buf : ℕ
ev_buf = 64

module _ {F : Type 0} (fl : Float F) (os : Os) (fuel : ℕ) (junk : Input) (bits : ℕ)
    (has_hotkey : Bool) (self device_id : ℕ) where
  -- What was read is handled if it is a whole number of events.
  unfoldable pub handle_read : Option ℕ → List ℕ → Pvt F → Cmd (Pvt F × Code)
  handle_read cl b pvt =
      let count = length b / event_size in
      if ltb (length b) event_size || not (length b % event_size == 0)
      then pure (pvt, code_remove)
      else (do
        (to_end, p) ←
            evdev_loop fl os fuel junk bits has_hotkey self device_id (suc count)
              (events_of count b 0) cl 0 pvt
        if to_end
            then (do
              q ← tap_click fl os fuel junk bits has_hotkey self device_id cl p
              pure (q, code_ok))
            else pure (p, code_ok))

  -- `now` is the answer of clock_gettime.
  unfoldable pub transceive_evdev : Mute → Timespec → ℕ → Pvt F → Cmd (Mute × Pvt F × Code)
  unfolding handle_read
  transceive_evdev mute now fd pvt = do
    cl ← get_focused_client mute
    (mute', _) ← update_state os fuel junk bits mute
    let p = record pvt { curtime = now }
    r ← read_events os fuel fd (ev_buf * event_size)
    active ← get (λ q. q.is_active)
    elim r [
      | failed e ↦ pure (mute', p, if is_eagain e then code_ok else code_remove)
      | done b ↦
          if not active
          then pure (mute', p, code_ok)
          else (do (q, c) ← handle_read cl b p; pure (mute', q, c))
    ]
