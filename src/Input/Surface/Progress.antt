-- ===== src/Input/Surface/Progress.antt =====
-- platform/linux/input.c, consume_surface_report: which events end its loop.
use gtscreen.Prelude.{
  ℕ, ◌≡◌, refl, ap, ◌∙◌, inl, inr, Option-cases, Bool, true, false, not, ◌&&◌, ◌||◌, none, some,
  List, arith, leb, ◌==◌, if◌then◌else◌, ℤ, pos, negsuc,
}
use gtscreen.Input.Surface.{
  Scan, Step, next, ended, overrun, InputEvent, write_at, first_contact, is_negative, abs_mt_slot,
  abs_mt_tool_y, syn_mt_report,
}
use gtscreen.Input.Surface.Events.{
  send_contact, enter_slot, move_slot, on_slot, forget_contact, release_contact, on_tracking_id,
  on_position_x, on_position_y, set_magnitude, on_touch_major, on_pressure, on_other, end_report,
  on_surface_event, then_step,
}

-- The codes of multitouch events.
abbrev pub is_surface : ℕ → Bool
is_surface code = (leb abs_mt_slot code && leb code abs_mt_tool_y) || (code == syn_mt_report)

module _ {F : Type 0} where
  abbrev pub is_ended : Step F → Bool
  is_ended (next s) = false
  is_ended (ended s) = true
  is_ended overrun = false

  abbrev pub is_next : Step F → Bool
  is_next (next s) = true
  is_next (ended s) = false
  is_next overrun = false

  then_step-goes :
      (r : Step F) (k : Scan F → Step F)
      → is_ended r ≡ false
      → ((s : Scan F) → is_ended (k s) ≡ false)
      → is_ended (then_step r k) ≡ false
  then_step-goes (next s) k h f = f s
  then_step-goes (ended s) k h f = h
  then_step-goes overrun k h f = refl

  send_contact-goes : (s : Scan F) → is_ended (send_contact s) ≡ false
  unfolding send_contact
  send_contact-goes s = ground arith

  move_slot-goes : (v : ℤ) (s : Scan F) → is_ended (move_slot v s) ≡ false
  unfolding move_slot enter_slot
  move_slot-goes (negsuc _) s = refl
  move_slot-goes (pos c) s = ground arith

  on_slot-goes : (v : ℤ) (s : Scan F) → is_ended (on_slot v s) ≡ false
  unfolding on_slot
  on_slot-goes v s =
      then_step-goes (if s.send_msg then send_contact s else next s) (move_slot v)
        (ground (arith, send_contact-goes s)) (move_slot-goes v)

  release_contact-goes : (s : Scan F) → is_ended (release_contact s) ≡ false
  unfolding release_contact
  release_contact-goes s =
      elim (Option-cases (write_at s.pvt.contact_mag s.active_contact (pos 0))) [
        | inl e ↦ ap is_ended (none_write e)
        | inr (mags, e) ↦
            ap is_ended (some_write mags e)
            ∙ then_step-goes _ forget_contact (send_contact-goes (at mags)) forgets
      ]
    where
      at : List ℤ → Scan F
      at mags = record s { pvt = record s.pvt { contact_mag = mags } }

      none_write :
          write_at s.pvt.contact_mag s.active_contact (pos 0) ≡ none → release_contact s ≡ overrun
      none_write e = rw (release_contact, e) refl

      some_write :
          (mags : List ℤ)
          → write_at s.pvt.contact_mag s.active_contact (pos 0) ≡ some mags
          → release_contact s ≡ then_step (send_contact (at mags)) forget_contact
      some_write mags e = rw (release_contact, e) refl

      forgets : (t : Scan F) → is_ended (forget_contact t) ≡ false
      forgets t = unfold forget_contact in refl

  on_tracking_id-goes : (v : ℤ) (s : Scan F) → is_ended (on_tracking_id v s) ≡ false
  unfolding on_tracking_id
  on_tracking_id-goes v s =
      ground
        (arith, release_contact-goes (record s { active_contact = first_contact s.active_contact }))

  on_position_x-goes : (v : ℤ) (s : Scan F) → is_ended (on_position_x v s) ≡ false
  unfolding on_position_x
  on_position_x-goes v s = ground arith

  on_position_y-goes : (v : ℤ) (s : Scan F) → is_ended (on_position_y v s) ≡ false
  unfolding on_position_y
  on_position_y-goes v s = ground arith

  on_touch_major-goes : (v : ℤ) (s : Scan F) → is_ended (on_touch_major v s) ≡ false
  unfolding on_touch_major set_magnitude
  on_touch_major-goes v s = ground arith

  on_pressure-goes : (v : ℤ) (s : Scan F) → is_ended (on_pressure v s) ≡ false
  unfolding on_pressure set_magnitude
  on_pressure-goes v s = ground arith

  -- Multitouch events do not end the report, and all others do.
  pub surface_goes :
      (e : InputEvent) (s : Scan F)
      → is_surface e.code ≡ true
      → is_ended (on_surface_event e s) ≡ false
  unfolding on_surface_event on_other
  surface_goes e s h = ground (
    arith,
    on_slot-goes e.value s,
    on_tracking_id-goes e.value s,
    on_position_x-goes e.value s,
    on_position_y-goes e.value s,
    on_touch_major-goes e.value s,
    on_pressure-goes e.value s,
  )

  end_report-stops : (r : Step F) → is_next (end_report r) ≡ false
  end_report-stops (next s) = refl
  end_report-stops (ended s) = refl
  end_report-stops overrun = refl

  pub other_stops :
      (e : InputEvent) (s : Scan F)
      → is_surface e.code ≡ false
      → is_next (on_surface_event e s) ≡ false
  unfolding on_surface_event on_other
  other_stops e s h = ground (
    arith,
    end_report-stops
        (if s.send_msg && not (is_negative s.active_id) then send_contact s else next s),
  )
