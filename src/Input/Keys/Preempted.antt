-- ===== src/Input/Keys/Preempted.antt =====
-- platform/linux/input.c: preempt_keycodes after evdev_translate_keycode.
use gtscreen.Prelude.{ℕ, ◌<◌, ◌≡◌, refl, Bool, true, false, some, arith, ◌==◌, success}
use gtscreen.Protocol.{Input}
use gtscreen.Server.State.{Device}
use gtscreen.Input.Keycodes.{keycode_count, keycode_lalt}
use gtscreen.Input.Keymap.{keymap}
use gtscreen.Input.Buttons.{btn_is_down, set_input_msg}
use gtscreen.Input.Buttons.Pressed.{Fits, set_input_msg-refines}
use gtscreen.Input.Driver.{Pvt}
use gtscreen.Input.Keys.{
  row, is_vt_key, evdev_translate_keycode, preempt_keycodes, passed, swallowed,
}
use gtscreen.Input.Keys.Codes.{keymap-coded}

vt-ne-alt : (c : ℕ) → is_vt_key c ≡ true → (keycode_lalt == c) ≡ false
vt-ne-alt c h = ground arith

module _ {F : Type 0} (d : Device) (pvt : Pvt F) (msg : Input) (c : ℕ)
    (e : row msg.code keymap ≡ some c) where
  device-key : (evdev_translate_keycode d pvt msg).device ≡ (set_input_msg d msg c).0
  unfolding evdev_translate_keycode
  device-key = rw (evdev_translate_keycode, e) refl

  msg-key : (evdev_translate_keycode d pvt msg).msg ≡ (set_input_msg d msg c).1
  unfolding evdev_translate_keycode
  msg-key = rw (evdev_translate_keycode, e) refl

  status-key : (evdev_translate_keycode d pvt msg).status ≡ (set_input_msg d msg c).2
  unfolding evdev_translate_keycode
  status-key = rw (evdev_translate_keycode, e) refl

-- With the left alt key down, the press of a key that switches virtual terminals goes down in the
-- device and is kept from the client; but the release of that key, which comes next, is sent to the
-- client, which never saw the press.
pub swallowed_release :
    {F : Type 0} (has_hotkey : Bool) (d : Device) (pvt : Pvt F) (msg : Input) (c : ℕ)
    → Fits d
    → btn_is_down d keycode_lalt ≡ true
    → row msg.code keymap ≡ some c
    → is_vt_key c ≡ true
    → msg.val ≡ 1
    → let down = evdev_translate_keycode d pvt msg in
      let up = evdev_translate_keycode down.device down.pvt (record msg { val = 0 }) in
      (down.status ≡ success)
      × (preempt_keycodes has_hotkey down.device down.msg ≡ swallowed)
      × (up.status ≡ success)
      × (up.msg.code ≡ c)
      × (preempt_keycodes has_hotkey up.device up.msg ≡ passed)
unfolding preempt_keycodes
swallowed_release has_hotkey d pvt msg c fits alt e vt press =
    let lt : c < keycode_count = keymap-coded msg.code c e in
    let first = set_input_msg-refines d msg c fits lt in
    let d' : Device = (evdev_translate_keycode d pvt msg).device in
    let pvt' = (evdev_translate_keycode d pvt msg).pvt in
    let up : Input = record msg { val = 0 } in
    let same : d' ≡ (set_input_msg d msg c).0 = device-key d pvt msg c e in
    let fits' : Fits d' = rw same first.0 in
    let second = set_input_msg-refines d' up c fits' lt in
    let alt' : btn_is_down d' keycode_lalt ≡ true =
      rw (same, first.1 keycode_lalt) (ground (arith, vt-ne-alt c vt)) in
    let down' : btn_is_down d' c ≡ true = rw (same, first.1 c) (ground arith) in
    (
      rw (status-key d pvt msg c e, first.2) (ground arith),
      rw (msg-key d pvt msg c e, first.3) (ground arith),
      rw (status-key d' pvt' up c e, second.2) (ground arith),
      rw (msg-key d' pvt' up c e, second.3) refl,
      rw (msg-key d' pvt' up c e, second.3) refl,
    )
