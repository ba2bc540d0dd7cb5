-- ===== src/Input/Setup.antt =====
-- platform/linux/input.c: evdev_instantiate, as far as it fills the state of a device from what the
-- kernel tells of it, and evdev_load_settings.
pub mod Fresh
pub mod Measured
use gtscreen.Prelude.{
  ℕ, zero, suc, ◌+◌, ◌*◌, ◌%◌, ◌^◌, Bool, true, false, not, ◌&&◌, ◌||◌, Option, none, some, List,
  [], ◌∷◌, ◌==◌, if◌then◌else◌, ℤ, pos, negsuc, replicate,
}
use gtscreen.Start.{Options}
use gtscreen.Input.Kernel.{btn_left, btn_right, btn_middle}
use gtscreen.Input.Buttons.{bit_check}
use gtscreen.Input.Driver.{Pvt, Absinfo, Timespec}
use gtscreen.Input.Pointer.{to_bits}
use gtscreen.Input.Surface.{
  minus_one, abs_mt_slot, abs_mt_touch_major, abs_mt_position_x, abs_mt_position_y,
  abs_mt_tracking_id, abs_mt_pressure,
}
use gtscreen.Input.Discover.{Caps, Class, keyboard, mouse, touch, key_cnt, abs_cnt}

-- linux/input.h: buttons of tools, and the type of absolute axes.
abbrev pub btn_tool_rubber : ℕ
btn_tool_rubber = 0x141

abbrev pub btn_tool_airbrush : ℕ
btn_tool_airbrush = 0x144

abbrev pub btn_tool_mouse : ℕ
btn_tool_mouse = 0x146

abbrev pub btn_tool_quinttap : ℕ
btn_tool_quinttap = 0x148

abbrev pub btn_stylus2 : ℕ
btn_stylus2 = 0x14c

abbrev pub btn_tool_doubletap : ℕ
btn_tool_doubletap = 0x14d

abbrev pub btn_tool_tripletap : ℕ
btn_tool_tripletap = 0x14e

abbrev pub btn_tool_quadtap : ℕ
btn_tool_quadtap = 0x14f

abbrev pub ev_abs_bit : ℕ
ev_abs_bit = 3

abbrev pub ev_cnt : ℕ
ev_cnt = 0x20

-- The first of some buttons that the device has.
unfoldable pub first_button : List ℕ → List ℕ → Option ℕ
first_button keybits [] = none
first_button keybits (b ∷ bs) =
    if bit_check keybits b key_cnt then some b else first_button keybits bs

abbrev pub no_range : Absinfo
no_range = record { minimum = pos 0; maximum = pos 0 }

-- The range of an axis: the kernel is asked for the axes that the device has, up to axis `n`. `none`
-- is a failing ioctl.
unfoldable pub read_ranges : (ℕ → Option Absinfo) → List ℕ → ℕ → Option (ℕ → Absinfo)
read_ranges ask absbits zero = some (λ i. no_range)
read_ranges ask absbits (suc n) = elim (read_ranges ask absbits n) [
  | none ↦ none
  | some f ↦
      if not (bit_check absbits n abs_cnt)
      then some f
      else elim (ask n) [ none ↦ none | some a ↦ some (λ i. if i == n then a else f i) ]
]

-- SPR16_DEV_MOUSE and SPR16_DEV_TOUCH take the options.
abbrev pub takes_options : Class → Bool
takes_options keyboard = false
takes_options mouse = true
takes_options touch = true

module _ {F : Type 0} where
  unfoldable pub evdev_load_settings : Options → Class → Pvt F → Pvt F
  evdev_load_settings o cls pvt =
      let yes_options = takes_options cls in
      record pvt {
        relative_accel = if yes_options then o.pointer_accel else pvt.relative_accel;
        vscroll_amount = if yes_options then to_bits o.vscroll_amount else pvt.vscroll_amount;
        tap_delay = if yes_options then o.tap_delay else pvt.tap_delay;
      }

  -- After calloc and the first assignments. The scroll button is 0, not -1.
  abbrev pub cleared : F → Timespec → Pvt F
  cleared zero_f epoch = record {
    active_contact = minus_one;
    contact_ids = replicate 64 minus_one;
    contact_x = replicate 64 (pos 0);
    contact_y = replicate 64 (pos 0);
    contact_mag = replicate 64 (pos 0);
    contact_xmax = pos 0;
    contact_ymax = pos 0;
    contact_magmax = pos 1;
    has_pressure = false;
    invert_x = false;
    invert_y = false;
    touch_lbtn = none;
    touch_rbtn = none;
    touch_mbtn = none;
    touch_sbtn = some 0;
    is_trackpad = false;
    tap_check = false;
    has_tapped = false;
    tap_reacquire = 0;
    tap_delay = 0;
    track_x = zero_f;
    track_y = zero_f;
    tap_up_x = zero_f;
    tap_up_y = zero_f;
    curtime = epoch;
    last_tap_up = epoch;
    last_bigmotion = epoch;
    relative_accel = 0;
    vscroll_amount = 0;
    absinfo = λ i. no_range;
  }

  -- A multitouch surface needs tracking ids; its magnitude comes from the pressure or the size.
  unfoldable pub setup_surface : List ℕ → Pvt F → Option (Pvt F)
  setup_surface absbits pvt =
      let axis = λ (k : ℕ). bit_check absbits k abs_cnt in
      let multi = axis abs_mt_slot && (axis abs_mt_position_x || axis abs_mt_position_y) in
      let by_pressure = multi && axis abs_mt_pressure in
      let by_size = multi && axis abs_mt_touch_major in
      if multi && not (axis abs_mt_tracking_id)
      then none
      else some (record pvt {
        has_pressure = pvt.has_pressure || by_pressure;
        contact_magmax =
            if by_pressure
            then (pvt.absinfo abs_mt_pressure).maximum
            else if by_size
            then (pvt.absinfo abs_mt_touch_major).maximum
            else pvt.contact_magmax;
      })

  unfoldable pub with_ranges : List ℕ → (ℕ → Absinfo) → Pvt F → Pvt F
  unfolding first_button
  with_ranges keybits ranges pvt =
      let buttons = first_button keybits in
      record pvt {
        absinfo = ranges;
        touch_lbtn = buttons (btn_left ∷ btn_tool_mouse ∷ []);
        touch_rbtn =
            buttons (btn_right ∷ btn_stylus2 ∷ btn_tool_airbrush ∷ btn_tool_tripletap ∷ []);
        touch_mbtn =
            buttons (btn_middle ∷ btn_tool_quadtap ∷ btn_tool_quinttap ∷ btn_tool_rubber ∷ []);
        touch_sbtn = buttons (btn_tool_doubletap ∷ []);
      }

  unfoldable pub setup_ranged : Caps → Pvt F → Option (ℕ → Absinfo) → Option (Pvt F)
  unfolding with_ranges setup_surface
  setup_ranged caps pvt none = none
  setup_ranged caps pvt (some ranges) =
      setup_surface caps.absbits (with_ranges caps.keybits ranges pvt)

  unfoldable pub setup_axes : (ℕ → Option Absinfo) → Caps → Pvt F → Option (Pvt F)
  unfolding setup_ranged read_ranges
  setup_axes ask caps pvt =
      if not (bit_check caps.evbits ev_abs_bit ev_cnt)
      then some pvt
      else setup_ranged caps pvt (read_ranges ask caps.absbits abs_cnt)

  unfoldable pub finish_setup : Timespec → Options → Class → Option (Pvt F) → Option (Pvt F)
  unfolding evdev_load_settings
  finish_setup now o cls none = none
  finish_setup now o cls (some pvt) = some (record (evdev_load_settings o cls pvt) {
    curtime = now;
    last_tap_up = now;
    last_bigmotion = now;
  })

  -- `now` is the answer of clock_gettime; `ask` that of EVIOCGABS.
  unfoldable pub evdev_setup :
      F → Timespec → Timespec → Options → Class → (ℕ → Option Absinfo) → Caps → Option (Pvt F)
  unfolding setup_axes finish_setup
  evdev_setup zero_f epoch now o cls ask caps =
      finish_setup now o cls (setup_axes ask caps (cleared zero_f epoch))
