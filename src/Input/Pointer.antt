-- ===== src/Input/Pointer.antt =====
-- platform/linux/input.c: apply_curve, abs_to_trackpad and check_tap_dist. The floating-point
-- numbers of the build are a parameter.
use gtscreen.Prelude.{
  ℕ, ◌-◌, ◌*◌, ◌/◌, ◌%◌, ◌^◌, Bool, ◌&&◌, ◌==◌, ltb, if◌then◌else◌, ℤ, pos, negsuc, Status, success,
  failure,
}
use gtscreen.Protocol.{Input}
use gtscreen.Input.Driver.{Pvt}

-- `float`, with the literals as fractions. `double` for intermediate results is not told apart.
pub record Float (F : Type 0) : Type 0 where
  pub of_int : ℤ → F
  pub to_int : F → ℤ
  pub literal : ℕ → ℕ → F
  pub sub : F → F → F
  pub add : F → F → F
  pub mul : F → F → F
  pub div : F → F → F
  pub fmin : F → F → F
  pub fabs : F → F
  pub lt : F → F → Bool
  pub le : F → F → Bool

-- The bit pattern of an int, and back.
abbrev pub to_bits : ℤ → ℕ
to_bits (pos n) = n % 2 ^ 32
to_bits (negsuc n) = 2 ^ 32 - 1 - n % 2 ^ 32

abbrev pub of_bits : ℕ → ℤ
of_bits n = if ltb n 2147483648 then pos n else negsuc (2 ^ 32 - 1 - n)

abbrev pub relative_scale : ℕ
relative_scale = 10

abbrev pub curve_scale : ℕ
curve_scale = 1000

-- linux/input.h: the axes 0 and 1, and SPR16_INPUT_AXIS_RELATIVE.
abbrev pub axis_x : ℕ
axis_x = 0

abbrev pub axis_y : ℕ
axis_y = 1

abbrev pub input_axis_relative : ℕ
input_axis_relative = 4

module _ {F : Type 0} (fl : Float F) where
  unfoldable pub apply_curve : F → F → F → F → F
  apply_curve delta min_delta max_delta slope =
      let ds = fl.mul delta slope in
      let stable_curve = fl.fmin max_delta (fl.add (fl.mul ds ds) min_delta) in
      if fl.lt delta (fl.literal 0 1)
      then fl.mul stable_curve (fl.of_int (negsuc 0))
      else stable_curve

  -- The last part of abs_to_trackpad, for an axis with its movement.
  unfoldable pub move_pointer : ℕ → F → F → F → Pvt F → Input → Pvt F × Input × Status
  unfolding apply_curve
  move_pointer axis delta min_delta max_delta pvt msg =
      let curved =
        if pvt.relative_accel == 0
        then delta
        else apply_curve delta min_delta max_delta
            (fl.of_int (pos (pvt.relative_accel / relative_scale))) in
      let big = fl.lt (fl.mul min_delta (fl.of_int (pos 20))) (fl.fabs curved) in
      let scaled = fl.mul curved (fl.of_int (pos (curve_scale * relative_scale))) in
      if ltb 0 pvt.tap_reacquire
      then (record pvt { tap_reacquire = pvt.tap_reacquire - 1 }, msg, failure)
      else (
        record pvt { last_bigmotion = if big then pvt.curtime else pvt.last_bigmotion },
        record msg { type = input_axis_relative; code = axis; val = to_bits (fl.to_int scaled) },
        success,
      )

  unfoldable pub abs_to_trackpad : Pvt F → Input → F → F → Pvt F × Input × Status
  unfolding move_pointer
  abs_to_trackpad pvt msg min_delta max_delta =
      let fval = fl.div (fl.of_int (of_bits msg.val)) (fl.of_int (of_bits msg.ext)) in
      if msg.code == axis_x
      then move_pointer axis_x (fl.sub fval pvt.track_x) min_delta max_delta
          (record pvt { track_x = fval }) msg
      else if msg.code == axis_y
      then move_pointer axis_y (fl.sub fval pvt.track_y) min_delta max_delta
          (record pvt { track_y = fval }) msg
      else (pvt, msg, failure)

  unfoldable pub check_tap_dist : Pvt F → F → Bool
  check_tap_dist pvt tapclick_dist =
      fl.le (fl.fabs (fl.sub pvt.track_x pvt.tap_up_x)) tapclick_dist
      && fl.le (fl.fabs (fl.sub pvt.track_y pvt.tap_up_y)) tapclick_dist
