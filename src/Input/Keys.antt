-- ===== src/Input/Keys.antt =====
-- platform/linux/input.c: evdev_translate_keycode with evdev_translate_btns, trackpad_tap_up, and
-- preempt_keycodes.
pub mod Codes
pub mod Preempted
use gtscreen.Prelude.{
  ℕ, ◌-◌, ◌/◌, Bool, true, false, not, ◌&&◌, ◌||◌, Option, none, some, List, [], ◌∷◌, ltb, leb,
  ◌==◌, if◌then◌else◌, Status, success, failure,
}
use gtscreen.Protocol.{Input}
use gtscreen.Server.State.{Device}
use gtscreen.Input.Kernel.{btn_touch}
use gtscreen.Input.Keycodes.{
  keycode_lalt, keycode_lctrl, keycode_left, keycode_right, keycode_f1, keycode_f24, keycode_escape,
  keycode_lbtn, keycode_rbtn, keycode_abtn, keycode_sbtn, keycode_contact,
}
use gtscreen.Input.Keymap.{keymap, buttonmap}
use gtscreen.Input.Buttons.{btn_is_down, set_input_msg}
use gtscreen.Input.Driver.{Pvt}
use gtscreen.Input.Time.{usecs_elapsed, usecs_subtract}

-- A row of a table.
unfoldable pub row : ℕ → List (ℕ × ℕ) → Option ℕ
row code [] = none
row code ((k, c) ∷ rest) = if k == code then some c else row code rest

abbrev pub is : Option ℕ → ℕ → Bool
is none code = false
is (some c) code = c == code

-- TAP_STABL
abbrev pub tap_stabl : ℕ
tap_stabl = 350000

pub record Keyed (F : Type 0) : Type 0 where
  pub device : Device
  pub pvt : Pvt F
  pub msg : Input
  pub status : Status

module _ {F : Type 0} where
  unfoldable pub trackpad_tap_up : Pvt F → Pvt F
  trackpad_tap_up pvt = record pvt {
    has_tapped = false;
    last_tap_up =
        if pvt.has_tapped then (usecs_subtract pvt.curtime (pvt.tap_delay / 2)).0 else pvt.curtime;
    tap_reacquire = 4;
    tap_up_x = pvt.track_x;
    tap_up_y = pvt.track_y;
  }

  -- set_input_msg on the device of a driver.
  abbrev pub keyed : Device → Pvt F → Input → ℕ → Keyed F
  keyed d pvt msg code =
      let r = set_input_msg d msg code in
      record { device = r.0; pvt = pvt; msg = r.1; status = r.2 }

  unfoldable pub touched : Device → Pvt F → Input → Keyed F
  unfolding trackpad_tap_up
  touched d pvt msg =
      let contact = record msg { code = keycode_contact } in
      if not pvt.is_trackpad
      then record { device = d; pvt = pvt; msg = contact; status = success }
      else if msg.val == 0
      then record { device = d; pvt = trackpad_tap_up pvt; msg = contact; status = success }
      else if ltb (usecs_elapsed pvt.curtime pvt.last_tap_up) pvt.tap_delay
          && not (ltb (usecs_elapsed pvt.curtime pvt.last_bigmotion) tap_stabl)
      then record { device = d; pvt = record pvt { tap_check = true }; msg = msg; status = failure }
      else record { device = d; pvt = pvt; msg = msg; status = failure }

  unfoldable pub evdev_translate_btns : Device → Pvt F → Input → Keyed F
  unfolding touched trackpad_tap_up
  evdev_translate_btns d pvt msg =
      let sent = λ (p : Pvt F) (c : ℕ).
        let r : Keyed F = record {
          device = d;
          pvt = p;
          msg = record msg { code = c };
          status = success;
        } in
        r in
      if is pvt.touch_lbtn msg.code
      then sent pvt keycode_lbtn
      else if is pvt.touch_rbtn msg.code
      then sent pvt keycode_rbtn
      else if is pvt.touch_mbtn msg.code
      then sent pvt keycode_abtn
      else if is pvt.touch_sbtn msg.code
      then sent (if pvt.is_trackpad then trackpad_tap_up pvt else pvt) keycode_sbtn
      else elim (row msg.code buttonmap) [
        | some c ↦ keyed d pvt msg c
        | none ↦
            if msg.code == btn_touch
            then touched d pvt msg
            else record { device = d; pvt = pvt; msg = msg; status = failure }
      ]

  unfoldable pub evdev_translate_keycode : Device → Pvt F → Input → Keyed F
  unfolding evdev_translate_btns
  evdev_translate_keycode d pvt msg = elim (row msg.code keymap) [
    | some c ↦ keyed d pvt msg c
    | none ↦ evdev_translate_btns d pvt msg
  ]

-- What preempt_keycodes does with an event: it lets it pass, keeps it from the client, calls the
-- hotkey function of the device with a number, or raises SIGTERM.
pub data Preempt : Type 0 where
  passed : Preempt
  swallowed : Preempt
  hotkey : ℕ → Preempt
  sigterm : Preempt

abbrev pub hotkey_axe : ℕ
hotkey_axe = 1

abbrev pub hotkey_nextscreen : ℕ
hotkey_nextscreen = 2

-- The keys that switch virtual terminals under alt.
abbrev pub is_vt_key : ℕ → Bool
is_vt_key code =
    (leb keycode_f1 code && leb code keycode_f24)
    || (code == keycode_left)
    || (code == keycode_right)

-- `has_hotkey`: func_hotkey of the device is set. The tabulator has code 9.
unfoldable pub preempt_keycodes : Bool → Device → Input → Preempt
preempt_keycodes has_hotkey d msg =
    let alt = btn_is_down d keycode_lalt in
    let both = alt && btn_is_down d keycode_lctrl in
    if not (msg.val == 1)
    then passed
    else if is_vt_key msg.code
    then (if alt then swallowed else passed)
    else if msg.code == keycode_escape
    then (if both then (if has_hotkey then hotkey hotkey_axe else sigterm) else passed)
    else if msg.code == 9
    then (if both then (if has_hotkey then hotkey hotkey_nextscreen else swallowed) else passed)
    else passed
