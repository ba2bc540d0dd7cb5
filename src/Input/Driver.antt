-- ===== src/Input/Driver.antt =====
-- platform/linux/input.c: `struct drv_evdev_pvt`, the state of one evdev device, and the clock. The
-- type F of floating-point numbers is a parameter. The bit arrays of its capabilities are read only
-- while the device is set up.
use gtscreen.Prelude.{ℕ, Bool, Option, List, ℤ}

-- The globals g_input_muted and g_unmute_input, which signal handlers set too.
pub record Mute : Type 0 where
  pub muted : Bool
  pub unmute : Bool

-- `struct timespec`
pub record Timespec : Type 0 where
  pub sec : ℕ
  pub nsec : ℕ

-- `struct input_absinfo`, the range of an axis.
pub record Absinfo : Type 0 where
  pub minimum : ℤ
  pub maximum : ℤ

-- A touch button holds no code where the source has -1.
pub record Pvt (F : Type 0) : Type 0 where
  pub active_contact : ℤ
  pub contact_ids : List ℤ
  pub contact_x : List ℤ
  pub contact_y : List ℤ
  pub contact_mag : List ℤ
  pub contact_xmax : ℤ
  pub contact_ymax : ℤ
  pub contact_magmax : ℤ
  pub has_pressure : Bool
  pub invert_x : Bool
  pub invert_y : Bool
  pub touch_lbtn : Option ℕ
  pub touch_rbtn : Option ℕ
  pub touch_mbtn : Option ℕ
  pub touch_sbtn : Option ℕ
  pub is_trackpad : Bool
  pub tap_check : Bool
  pub has_tapped : Bool
  pub tap_reacquire : ℕ
  pub tap_delay : ℕ
  pub track_x : F
  pub track_y : F
  pub tap_up_x : F
  pub tap_up_y : F
  pub curtime : Timespec
  pub last_tap_up : Timespec
  pub last_bigmotion : Timespec
  pub relative_accel : ℕ
  pub vscroll_amount : ℕ
  pub absinfo : ℕ → Absinfo
