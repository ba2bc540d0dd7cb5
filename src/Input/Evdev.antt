-- ===== src/Input/Evdev.antt =====
-- platform/linux/input.c: get_focused_client, update_state, and the messages that an evdev device
-- sends. A device is an index into the server's list, since the hotkeys reset all devices.
pub mod Events
pub mod Transceive
pub mod Placed
pub mod Loop
pub mod Ends
use gtscreen.Prelude.{
  ℕ, zero, suc, ◌+◌, ◌-◌, ◌*◌, ◌/◌, ◌%◌, ◌^◌, Bool, true, false, not, ◌&&◌, ◌||◌, Option, none,
  some, List, [], ◌∷◌, leb, ltb, ◌==◌, if◌then◌else◌, ℤ, pos, negsuc, pure, ◌>>=◌, ◌>>◌, ok, fault,
  stuck, get_elem?, set, length, Status, success, failure,
}
use gtscreen.Os.{Os, Answer, done, failed, is_eintr, is_eagain, ebadf, read, raise_sigterm, enter}
use gtscreen.Protocol.{
  Input, InputSurface, encode_hdr, encode_input, encode_input_surface, msg_input, msg_input_surface,
  get16, get32,
}
use gtscreen.Fdpoll.Poll.{Code, code_ok, code_remove}
use gtscreen.Message.{write_msg}
use gtscreen.Server.State.{Device, Cmd, get, modify, sys, call, load, fail_with, Screen}
use gtscreen.Server.Devices.{input_flush_all_devices, failing}
use gtscreen.Server.Sync.{sync_fullscreen}
use gtscreen.Server.Screens.{focus_first, hotkey_callback}
use gtscreen.Input.Keycodes.{keycode_contact}
use gtscreen.Input.Driver.{Mute, Pvt, Timespec}
use gtscreen.Input.Keys.{
  evdev_translate_keycode, preempt_keycodes, passed, swallowed, hotkey, sigterm, Preempt,
}
use gtscreen.Input.Surface.{InputEvent, Contact, clamp_abs, abs_mt_slot, abs_mt_tool_y}
use gtscreen.Input.Surface.Events.{consume_surface_report}
use gtscreen.Input.Pointer.{
  Float, to_bits, of_bits, relative_scale, curve_scale, axis_x, axis_y, input_axis_relative,
  apply_curve, abs_to_trackpad, check_tap_dist,
}

unfoldable pub focused_socket : List Screen → Cmd (Option ℕ)
focused_socket [] = pure none
focused_socket (scrn ∷ _) = elim scrn.clients [
  | [] ↦ pure none
  | p ∷ _ ↦ do c ← load p; pure (if c.recv_fd_wait then none else some c.socket)
]

unfoldable pub get_focused_client : Mute → Cmd (Option ℕ)
unfolding focused_socket
get_focused_client mute =
    if mute.muted then pure none else (do scrns ← get (λ r. r.main_screen); focused_socket scrns)

-- After the virtual terminal came back: the client starts anew, and everything is drawn.
unfoldable pub update_state : Os → ℕ → Input → ℕ → Mute → Cmd (Mute × Status)
unfolding focus_first
update_state os fuel junk bits mute =
    let awake : Mute = record { muted = false; unmute = false } in
    if not mute.unmute then pure (mute, success) else (do
      scrns ← get (λ r. r.main_screen)
      focus_first os junk bits scrns
      flushed ← input_flush_all_devices os fuel
      elim flushed [
        | failure ↦ pure (awake, failure)
        | success ↦ do sync_fullscreen; pure (awake, success)
      ])

-- linux/input.h: the types of events; spr16.h: the types of inputs.
abbrev pub ev_key : ℕ
ev_key = 1

abbrev pub ev_rel : ℕ
ev_rel = 2

abbrev pub ev_abs : ℕ
ev_abs = 3

abbrev pub rel_wheel : ℕ
rel_wheel = 8

abbrev pub abs_cnt : ℕ
abs_cnt = 0x40

abbrev pub input_key : ℕ
input_key = 2

abbrev pub input_axis_absolute : ℕ
input_axis_absolute = 5

abbrev pub input_surface : ℕ
input_surface = 6

-- What becomes of an event: nothing is sent, further events were consumed, or a message goes out.
pub data Handled (F : Type 0) : Type 0 where
  skipped : Pvt F → Handled F
  consumed : ℕ → Pvt F → Handled F
  emitted : Pvt F → Input → Handled F

abbrev pub load_device : ℕ → Cmd Device
load_device self s = elim (get_elem? s.rest.devices self) [ none ↦ fault | some d ↦ ok d s ]

abbrev pub store_device : ℕ → Device → Cmd (Unit {0})
store_device self d = modify λ r. record r { devices = set r.devices self d }

-- A write to descriptor -1 fails.
unfoldable pub send_to : Os → Option ℕ → List ℕ → Cmd Status
send_to os none msg = fail_with ebadf
send_to os (some fd) msg = sys (λ w. write_msg os fd msg w)

-- The header's second field is not set: `bits`.
abbrev pub input_msg : ℕ → Input → List ℕ
input_msg bits m = encode_hdr (record { type = msg_input; bits = bits }) (encode_input m [])

abbrev pub contact_msg : ℕ → Contact → List ℕ
contact_msg bits c =
    encode_hdr (record { type = msg_input_surface; bits = bits })
      (encode_input_surface
        (record {
          input = record {
            val = to_bits c.val;
            ext = to_bits c.ext;
            code = c.code;
            type = input_surface;
            id = 0;
          };
          xpos = to_bits c.xpos;
          ypos = to_bits c.ypos;
          xmax = to_bits c.xmax;
          ymax = to_bits c.ymax;
        })
        [])

unfoldable pub send_contacts : Os → ℕ → Option ℕ → List Contact → Cmd (Unit {0})
unfolding send_to
send_contacts os bits cl [] = pure tt
send_contacts os bits cl (c ∷ cs) = do
  _ ← send_to os cl (contact_msg bits c)
  send_contacts os bits cl cs

-- The events of a read: 16 bytes each, of which the first 8 are the time.
abbrev pub event_size : ℕ
event_size = 16

unfoldable pub events_of : ℕ → List ℕ → ℕ → List InputEvent
events_of zero b i = []
events_of (suc n) b i =
    record { type = get16 b (i + 8); code = get16 b (i + 10); value = of_bits (get32 b (i + 12)) }
    ∷ events_of n b (i + event_size)
