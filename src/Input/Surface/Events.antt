-- ===== src/Input/Surface/Events.antt =====
-- platform/linux/input.c, consume_surface_report: one function for each case of its switch, the loop
-- over the events, and the whole.
use gtscreen.Prelude.{
  ℕ, suc, ◌+◌, ◌-◌, ◌%◌, ◌^◌, true, false, not, ◌&&◌, ◌||◌, Option, none, some, List, [], ◌∷◌, ◌++◌,
  ltb, leb, ◌==◌, if◌then◌else◌, ℤ, pos, negsuc, get_elem?, set, drop,
}
use gtscreen.Input.Driver.{Pvt}
use gtscreen.Input.Surface.{
  Scan, Step, next, ended, overrun, Contact, InputEvent, clamp_abs, set_id, get_id, minus_one,
  is_zero, is_negative, first_contact, one_third, write_at, max_contacts, abs_mt_slot,
  abs_mt_tracking_id, abs_mt_position_x, abs_mt_position_y, abs_mt_touch_major, abs_mt_pressure,
  abs_mt_tool_y, syn_mt_report,
}

module _ {F : Type 0} where
  abbrev pub then_step : Step F → (Scan F → Step F) → Step F
  then_step (next s) k = k s
  then_step (ended s) k = ended s
  then_step overrun k = overrun

  -- The message of a contact.
  unfoldable pub contact_at : Pvt F → ℤ → Option Contact
  contact_at pvt (negsuc _) = none
  contact_at pvt (pos c) = elim (get_elem? pvt.contact_mag c) [
    | none ↦ none
    | some m ↦ elim (get_elem? pvt.contact_x c) [
      | none ↦ none
      | some x ↦ elim (get_elem? pvt.contact_y c) [
        | none ↦ none
        | some y ↦ some (record {
          code = c;
          val = m;
          ext = pvt.contact_magmax;
          xpos = x;
          ypos = y;
          xmax = pvt.contact_xmax;
          ymax = pvt.contact_ymax;
        })
      ]
    ]
  ]

  unfoldable pub send_contact : Scan F → Step F
  send_contact s = elim (contact_at s.pvt s.active_contact) [
    | none ↦ overrun
    | some m ↦ next (record s { sent = s.sent ++ m ∷ []; send_msg = false })
  ]

  -- A slot in range becomes the active one.
  unfoldable pub enter_slot : ℕ → Scan F → Step F
  enter_slot c s = elim (get_elem? s.pvt.contact_mag c) [
    | none ↦ overrun
    | some m ↦
        let mags = s.pvt.contact_mag in
        let touched = if is_zero m then set mags c (pos 1) else mags in
        next (record s {
          pvt = record s.pvt { contact_mag = touched };
          active_contact = pos c;
          active_id = get_id s.pvt.contact_ids (pos c);
        })
  ]

  abbrev pub leave_slot : Scan F → Scan F
  leave_slot s = record s { active_id = minus_one; active_contact = minus_one }

  unfoldable pub move_slot : ℤ → Scan F → Step F
  move_slot (negsuc _) s = next (leave_slot s)
  move_slot (pos c) s = if leb max_contacts c then next (leave_slot s) else enter_slot c s

  -- A pending message goes out first.
  unfoldable pub on_slot : ℤ → Scan F → Step F
  on_slot v s = then_step (if s.send_msg then send_contact s else next s) (move_slot v)

  unfoldable pub forget_contact : Scan F → Step F
  forget_contact s =
      let r = set_id s.pvt.contact_ids s.active_contact minus_one in
      next (record s {
        pvt = record s.pvt { contact_ids = r.0 };
        active_id = r.1;
        active_contact = minus_one;
      })

  -- The active contact is released.
  unfoldable pub release_contact : Scan F → Step F
  unfolding forget_contact
  release_contact s = elim (write_at s.pvt.contact_mag s.active_contact (pos 0)) [
    | none ↦ overrun
    | some mags ↦
        then_step (send_contact (record s { pvt = record s.pvt { contact_mag = mags } }))
          forget_contact
  ]

  unfoldable pub on_tracking_id : ℤ → Scan F → Step F
  on_tracking_id v s =
      let t = record s { active_contact = first_contact s.active_contact } in
      let r = set_id t.pvt.contact_ids t.active_contact v in
      if is_negative v
      then release_contact t
      else next
          (record t { pvt = record t.pvt { contact_ids = r.0 }; active_id = r.1; send_msg = true })

  unfoldable pub on_position_x : ℤ → Scan F → Step F
  on_position_x v s =
      let a = s.pvt.absinfo abs_mt_position_x in
      let r = clamp_abs v a.minimum a.maximum s.pvt.invert_x in
      if is_negative s.active_id
      then next s
      else elim (write_at s.pvt.contact_x s.active_contact r.0) [
        | none ↦ overrun
        | some xs ↦ next (record s {
          pvt = record s.pvt { contact_x = xs; contact_xmax = r.1 };
          send_msg = true;
        })
      ]

  unfoldable pub on_position_y : ℤ → Scan F → Step F
  on_position_y v s =
      let a = s.pvt.absinfo abs_mt_position_y in
      let r = clamp_abs v a.minimum a.maximum s.pvt.invert_y in
      if is_negative s.active_id
      then next s
      else elim (write_at s.pvt.contact_y s.active_contact r.0) [
        | none ↦ overrun
        | some ys ↦ next (record s {
          pvt = record s.pvt { contact_y = ys; contact_ymax = r.1 };
          send_msg = true;
        })
      ]

  -- A magnitude, from the contact's size or its pressure.
  unfoldable pub set_magnitude : ℤ → ℤ → ℤ → Scan F → Step F
  set_magnitude v min max s =
      let r = clamp_abs v min max false in
      elim (write_at s.pvt.contact_mag s.active_contact r.0) [
        | none ↦ overrun
        | some mags ↦ next (record s {
          pvt = record s.pvt { contact_mag = mags; contact_magmax = r.1 };
          send_msg = true;
        })
      ]

  unfoldable pub on_touch_major : ℤ → Scan F → Step F
  on_touch_major v s =
      let a = s.pvt.absinfo abs_mt_touch_major in
      if is_negative s.active_id || s.pvt.has_pressure
      then next s
      else set_magnitude v (pos 1) (one_third a.maximum) s

  unfoldable pub on_pressure : ℤ → Scan F → Step F
  on_pressure v s =
      let a = s.pvt.absinfo abs_mt_pressure in
      if is_negative s.active_id || not s.pvt.has_pressure
      then next s
      else set_magnitude v a.minimum a.maximum s

  abbrev pub end_report : Step F → Step F
  end_report (next s) = ended s
  end_report (ended s) = ended s
  end_report overrun = overrun

  unfoldable pub on_other : ℕ → Scan F → Step F
  on_other code s =
      if ltb code abs_mt_slot || ltb abs_mt_tool_y code
      then end_report
          (if s.send_msg && not (is_negative s.active_id) then send_contact s else next s)
      else next s

  unfoldable pub on_surface_event : InputEvent → Scan F → Step F
  on_surface_event e s =
      if e.code == abs_mt_slot
      then on_slot e.value s
      else if e.code == abs_mt_tracking_id
      then on_tracking_id e.value s
      else if e.code == abs_mt_position_x
      then on_position_x e.value s
      else if e.code == abs_mt_position_y
      then on_position_y e.value s
      else if e.code == abs_mt_touch_major
      then on_touch_major e.value s
      else if e.code == abs_mt_pressure
      then on_pressure e.value s
      else if e.code == syn_mt_report
      then next s
      else on_other e.code s

  -- The loop, from index `i` on: the index at the end, after the rewinding.
  unfoldable pub scan_events : List InputEvent → ℕ → Scan F → Option (ℕ × Scan F)
  scan_events [] i s = some (i, s)
  scan_events (e ∷ es) i s = elim (on_surface_event e s) [
    | next t ↦ scan_events es (suc i) t
    | ended t ↦ some (i - 1, t)
    | overrun ↦ none
  ]

  abbrev pub scan_start : Pvt F → Scan F
  scan_start pvt = record {
    pvt = pvt;
    active_id = get_id pvt.contact_ids pvt.active_contact;
    active_contact = pvt.active_contact;
    send_msg = false;
    sent = [];
  }

  -- The number of events consumed, as an unsigned int, with the new state and the messages.
  unfoldable pub reported : ℕ → Option (ℕ × Scan F) → Option (ℕ × Pvt F × List Contact)
  reported start none = none
  reported start (some (i, s)) =
      some
        ((i + 2 ^ 32 - start) % 2 ^ 32, record s.pvt { active_contact = s.active_contact }, s.sent)

  unfoldable pub consume_surface_report :
      List InputEvent → ℕ → Pvt F → Option (ℕ × Pvt F × List Contact)
  consume_surface_report events start pvt =
      reported start (scan_events (drop start events) start (scan_start pvt))
