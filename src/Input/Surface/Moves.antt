-- ===== src/Input/Surface/Moves.antt =====
-- platform/linux/input.c, consume_surface_report: the events that change the active contact, and
-- those that end the report.
use gtscreen.Prelude.{
  ℕ, ◌≡◌, refl, sym, subst, ◌∙◌, if_true, if_false, inl, inr, true, false, not, ◌&&◌, ◌||◌, Option,
  none, some, List, arith, ltb, Bool-cases, ℤ, pos, negsuc, set, length, length-set,
}
use gtscreen.Input.Driver.{Absinfo}
use gtscreen.Input.Surface.{
  Scan, Step, next, ended, overrun, clamp_abs, is_negative, write_at, abs_mt_position_x,
  abs_mt_position_y, abs_mt_slot, abs_mt_tool_y,
}
use gtscreen.Input.Surface.Events.{
  send_contact, on_position_x, on_position_y, set_magnitude, on_touch_major, on_pressure, on_other,
  end_report,
}
use gtscreen.Input.Surface.Bounds.{Slot, ScanOk, StepOk, clamp_abs-IsAxis}
use gtscreen.Input.Surface.Safe.{next-Ok, sent_from, told_of-Ok, id_live}

-- A write of a live contact.
pub write_at-live :
    (xs : List ℤ) (a v : ℤ)
    → length xs ≡ 64
    → Slot a
    → is_negative a ≡ false
    → (c : ℕ) × (write_at xs a v ≡ some (set xs c v))
write_at-live xs (negsuc _) v size slot n = absurd (ground arith)
write_at-live xs (pos c) v size slot n = (c, if_true {b = ltb c (length xs)} _ _ (ground arith))

-- What follows a write.
pub after_write :
    {A : Type 0} {o : Option (List ℤ)} {xs : List ℤ} (bad : A) (good : List ℤ → A)
    → o ≡ some xs
    → elim o [ none ↦ bad | some ys ↦ good ys ] ≡ good xs
after_write bad good e = rw e refl

module _ {F : Type 0} where
  pub on_position_x-Ok : (v : ℤ) (s : Scan F) → ScanOk s → StepOk (on_position_x v s)
  unfolding on_position_x
  on_position_x-Ok v s h = elim (Bool-cases (is_negative s.active_id)) [
    | inl none_active ↦ next-Ok {s = s} (if_true _ _ none_active) h
    | inr active ↦
        let axis : Absinfo = s.pvt.absinfo abs_mt_position_x in
        let r = clamp_abs v axis.minimum axis.maximum s.pvt.invert_x in
        let live = id_live s h active in
        let w =
          write_at-live s.pvt.contact_x s.active_contact r.0 h.contacts.x_axis.size h.slot live in
        let xs = set s.pvt.contact_x w.0 r.0 in
        let t : Scan F = record s {
          pvt = record s.pvt { contact_x = xs; contact_xmax = r.1 };
          send_msg = true;
        } in
        next-Ok {s = t} (if_false _ _ active ∙ after_write _ _ w.1) (record {
          contacts = record {
            ids = h.contacts.ids;
            mags = h.contacts.mags;
            x_axis =
                clamp_abs-IsAxis axis s.pvt.contact_xmax v s.pvt.contact_x s.pvt.invert_x w.0
                  h.contacts.x_axis;
            y_axis = h.contacts.y_axis;
          };
          slot = h.slot;
          idle_id = h.idle_id;
          idle_msg = λ n. absurd (ground arith);
          told = h.told;
        })
  ]

  pub on_position_y-Ok : (v : ℤ) (s : Scan F) → ScanOk s → StepOk (on_position_y v s)
  unfolding on_position_y
  on_position_y-Ok v s h = elim (Bool-cases (is_negative s.active_id)) [
    | inl none_active ↦ next-Ok {s = s} (if_true _ _ none_active) h
    | inr active ↦
        let axis : Absinfo = s.pvt.absinfo abs_mt_position_y in
        let r = clamp_abs v axis.minimum axis.maximum s.pvt.invert_y in
        let live = id_live s h active in
        let w =
          write_at-live s.pvt.contact_y s.active_contact r.0 h.contacts.y_axis.size h.slot live in
        let xs = set s.pvt.contact_y w.0 r.0 in
        let t : Scan F = record s {
          pvt = record s.pvt { contact_y = xs; contact_ymax = r.1 };
          send_msg = true;
        } in
        next-Ok {s = t} (if_false _ _ active ∙ after_write _ _ w.1) (record {
          contacts = record {
            ids = h.contacts.ids;
            mags = h.contacts.mags;
            y_axis =
                clamp_abs-IsAxis axis s.pvt.contact_ymax v s.pvt.contact_y s.pvt.invert_y w.0
                  h.contacts.y_axis;
            x_axis = h.contacts.x_axis;
          };
          slot = h.slot;
          idle_id = h.idle_id;
          idle_msg = λ n. absurd (ground arith);
          told = h.told;
        })
  ]

  set_magnitude-Ok :
      (v min max : ℤ) (s : Scan F)
      → ScanOk s
      → is_negative s.active_contact ≡ false
      → StepOk (set_magnitude v min max s)
  unfolding set_magnitude
  set_magnitude-Ok v min max s h live =
      let r = clamp_abs v min max false in
      let w = write_at-live s.pvt.contact_mag s.active_contact r.0 h.contacts.mags h.slot live in
      let mags = set s.pvt.contact_mag w.0 r.0 in
      let t : Scan F = record s {
        pvt = record s.pvt { contact_mag = mags; contact_magmax = r.1 };
        send_msg = true;
      } in
      next-Ok {s = t} (after_write _ _ w.1) (record {
        contacts = record {
          ids = h.contacts.ids;
          mags = rw (length-set s.pvt.contact_mag w.0 r.0) h.contacts.mags;
          x_axis = h.contacts.x_axis;
          y_axis = h.contacts.y_axis;
        };
        slot = h.slot;
        idle_id = h.idle_id;
        idle_msg = λ n. absurd (ground arith);
        told = h.told;
      })

  pub on_touch_major-Ok : (v : ℤ) (s : Scan F) → ScanOk s → StepOk (on_touch_major v s)
  unfolding on_touch_major
  on_touch_major-Ok v s h = elim (Bool-cases (is_negative s.active_id || s.pvt.has_pressure)) [
    | inl skip ↦ next-Ok {s = s} (if_true _ _ skip) h
    | inr go ↦
        subst StepOk (sym (if_false _ _ go))
          (set_magnitude-Ok v _ _ s h (id_live s h (ground arith)))
  ]

  pub on_pressure-Ok : (v : ℤ) (s : Scan F) → ScanOk s → StepOk (on_pressure v s)
  unfolding on_pressure
  on_pressure-Ok v s h = elim (Bool-cases (is_negative s.active_id || not s.pvt.has_pressure)) [
    | inl skip ↦ next-Ok {s = s} (if_true _ _ skip) h
    | inr go ↦
        subst StepOk (sym (if_false _ _ go))
          (set_magnitude-Ok v _ _ s h (id_live s h (ground arith)))
  ]

  end_report-Ok : (r : Step F) → StepOk r → StepOk (end_report r)
  end_report-Ok (next s) h = h
  end_report-Ok (ended s) h = h
  end_report-Ok overrun h = h

  send_live-Ok :
      (s : Scan F) → ScanOk s → is_negative s.active_contact ≡ false → StepOk (send_contact s)
  send_live-Ok s h live =
      let message = sent_from s s.active_contact refl h.contacts h.slot live in
      next-Ok message.1 (told_of-Ok s message.0 h message.2)

  pub on_other-Ok : (code : ℕ) (s : Scan F) → ScanOk s → StepOk (on_other code s)
  unfolding on_other
  on_other-Ok code s h = elim (Bool-cases (ltb code abs_mt_slot || ltb abs_mt_tool_y code)) [
    | inl out ↦ subst StepOk (sym (if_true _ _ out)) (
        end_report-Ok _ (elim (Bool-cases (s.send_msg && not (is_negative s.active_id))) [
          | inl pending ↦
              subst StepOk (sym (if_true _ _ pending))
                (send_live-Ok s h (id_live s h (ground arith)))
          | inr quiet ↦ next-Ok {s = s} (if_false _ _ quiet) h
        ]))
    | inr inside ↦ next-Ok {s = s} (if_false _ _ inside) h
  ]
