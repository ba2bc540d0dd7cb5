-- ===== src/Input/Evdev/Events.antt =====
-- platform/linux/input.c, transceive_evdev: the events of one read.
use gtscreen.Prelude.{
  ℕ, zero, suc, ◌+◌, ◌-◌, ◌*◌, ◌/◌, ◌%◌, ◌^◌, Bool, true, false, not, ◌&&◌, ◌||◌, Option, none,
  some, List, leb, ltb_ℤ, ◌==◌, if◌then◌else◌, ℤ, pos, pure, ◌>>=◌, ◌>>◌, fault, stuck, get_elem?,
  Status, success, failure,
}
use gtscreen.Os.{Os, raise_sigterm}
use gtscreen.Protocol.{Input}
use gtscreen.Message.{write_msg}
use gtscreen.Server.State.{Cmd, sys, call}
use gtscreen.Server.Screens.{hotkey_callback}
use gtscreen.Input.Keycodes.{keycode_contact}
use gtscreen.Input.Driver.{Pvt}
use gtscreen.Input.Keys.{
  Keyed, evdev_translate_keycode, preempt_keycodes, passed, swallowed, hotkey, sigterm, Preempt,
}
use gtscreen.Input.Surface.{InputEvent, Contact, clamp_abs, abs_mt_slot, abs_mt_tool_y}
use gtscreen.Input.Surface.Events.{consume_surface_report}
use gtscreen.Input.Pointer.{
  Float, to_bits, relative_scale, curve_scale, axis_x, axis_y, input_axis_relative, apply_curve,
  abs_to_trackpad, check_tap_dist,
}
use gtscreen.Input.Evdev.{
  Handled, skipped, consumed, emitted, load_device, store_device, send_to, input_msg, send_contacts,
  ev_key, ev_rel, ev_abs, rel_wheel, abs_cnt, input_key, input_axis_absolute,
}

module _ {F : Type 0} (fl : Float F) (os : Os) (fuel : ℕ) (junk : Input) (bits : ℕ)
    (has_hotkey : Bool) (self device_id : ℕ) where
  abbrev blank : ℕ → ℕ → ℤ → Input
  blank type code value = record {
    val = to_bits value;
    ext = 0;
    code = code;
    type = type;
    id = device_id;
  }

  -- What preempt_keycodes asks for.
  unfoldable pub deliver : Preempt → Pvt F → Input → Cmd (Handled F)
  deliver passed pvt m = pure (emitted pvt m)
  deliver swallowed pvt m = pure (skipped pvt)
  deliver (hotkey hk) pvt m = do _ ← hotkey_callback os fuel junk bits hk; pure (skipped pvt)
  deliver sigterm pvt m = do call raise_sigterm; pure (skipped pvt)

  unfoldable pub translated : Keyed F → Status → Cmd (Handled F)
  unfolding deliver
  translated r failure = pure (skipped r.pvt)
  translated r success = deliver (preempt_keycodes has_hotkey r.device r.msg) r.pvt r.msg

  unfoldable pub on_key : InputEvent → Pvt F → Cmd (Handled F)
  unfolding translated
  on_key e pvt = do
    d ← load_device self
    let r = evdev_translate_keycode d pvt (blank input_key e.code e.value)
    store_device self r.device
    translated r r.status

  -- The wheel moves by the amount of the options; other axes are scaled, by the curve or by 10.
  unfoldable pub on_rel : InputEvent → Pvt F → Handled F
  unfolding apply_curve
  on_rel e pvt =
      let m = blank input_axis_relative e.code e.value in
      let amount = pvt.vscroll_amount in
      let up = ltb_ℤ (pos 0) e.value in
      let curved =
        apply_curve fl (fl.div (fl.of_int e.value) (fl.of_int (pos curve_scale)))
          (fl.literal 1 10000) (fl.literal 15 100)
          (fl.of_int (pos (pvt.relative_accel / relative_scale))) in
      if not (amount == 0) && (e.code == rel_wheel)
      then emitted pvt (record m { val = if up then amount else (2 ^ 32 - amount) % 2 ^ 32 })
      else if not (pvt.relative_accel == 0)
      then emitted pvt (record m {
        val = to_bits (
            fl.to_int (
              fl.mul (fl.mul curved (fl.of_int (pos relative_scale)))
                (fl.of_int (pos curve_scale))));
      })
      else emitted pvt (record m { val = m.val * relative_scale % 2 ^ 32 })

  unfoldable pub reported_surface : Option ℕ → Option (ℕ × Pvt F × List Contact) → Cmd (Handled F)
  reported_surface cl none = λ s. fault
  reported_surface cl (some (n, pvt, sent)) = do
    send_contacts os bits cl sent
    pure (consumed n pvt)

  abbrev pub tracked : Pvt F → Input → Status → Handled F
  tracked pvt m success = emitted pvt m
  tracked pvt m failure = skipped pvt

  unfoldable pub on_abs : List InputEvent → ℕ → Option ℕ → InputEvent → Pvt F → Cmd (Handled F)
  unfolding reported_surface
  on_abs events i cl e pvt =
      let axis = pvt.absinfo e.code in
      let r = clamp_abs e.value axis.minimum axis.maximum false in
      let m = record (blank input_axis_absolute e.code r.0) { ext = to_bits r.1 } in
      let t = abs_to_trackpad fl pvt m (fl.literal 75 1000000) (fl.literal 1 1) in
      if leb abs_mt_slot e.code && leb e.code abs_mt_tool_y
      then reported_surface cl (consume_surface_report events i pvt)
      else if leb abs_cnt e.code
      then pure (skipped pvt)
      else if pvt.is_trackpad && ((e.code == axis_x) || (e.code == axis_y))
      then pure (tracked t.0 t.1 t.2)
      else pure (emitted pvt m)

  unfoldable pub on_evdev_event :
      List InputEvent → ℕ → Option ℕ → InputEvent → Pvt F → Cmd (Handled F)
  unfolding on_key on_rel on_abs
  on_evdev_event events i cl e pvt =
      if e.type == ev_key
      then on_key e pvt
      else if e.type == ev_rel
      then pure (on_rel e pvt)
      else if e.type == ev_abs
      then on_abs events i cl e pvt
      else pure (skipped pvt)

  -- What follows an event, with the rest of the loop from an index on.
  unfoldable pub proceed :
      (ℕ → Pvt F → Cmd (Bool × Pvt F)) → ℕ → Option ℕ → Handled F → Cmd (Bool × Pvt F)
  proceed rest i cl (skipped p) = rest (suc i) p
  proceed rest i cl (consumed n p) = rest (suc ((i + n) % 2 ^ 32)) p
  proceed rest i none (emitted p m) = pure (false, p)
  proceed rest i (some fd) (emitted p m) = do
    r ← sys (λ w. write_msg os fd (input_msg bits m) w)
    elim r [ success ↦ rest (suc i) p | failure ↦ pure (false, p) ]

  -- One round: no event is left, or the event at the index is handled.
  unfoldable pub evdev_round :
      (ℕ → Pvt F → Cmd (Bool × Pvt F))
      → List InputEvent
      → Option ℕ
      → ℕ
      → Pvt F
      → Option InputEvent
      → Cmd (Bool × Pvt F)
  unfolding proceed
  evdev_round rest events cl i pvt none = pure (true, pvt)
  evdev_round rest events cl i pvt (some e) = do
    o ← on_evdev_event events i cl e pvt
    proceed rest i cl o

  -- The loop over the events from index `i` on, and whether it came to their end.
  unfoldable pub evdev_loop : ℕ → List InputEvent → Option ℕ → ℕ → Pvt F → Cmd (Bool × Pvt F)
  evdev_loop zero events cl i pvt = λ s. stuck
  evdev_loop (suc k) events cl i pvt =
      evdev_round (evdev_loop k events cl) events cl i pvt (get_elem? events i)

  -- The tap of a trackpad, after the events.
  unfoldable pub tap_click : Option ℕ → Pvt F → Cmd (Pvt F)
  unfolding send_to check_tap_dist
  tap_click cl pvt =
      let quiet = record pvt { tap_check = false; tap_reacquire = 0 } in
      if not (pvt.is_trackpad && pvt.tap_check)
      then pure pvt
      else if not (check_tap_dist fl pvt (fl.literal 167 1000))
      then pure quiet
      else (do
        _ ← send_to os cl (input_msg bits (blank input_key keycode_contact (pos 1)))
        pure (record quiet { has_tapped = true }))
