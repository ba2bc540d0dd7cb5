-- ===== src/Input/Surface/Safe.antt =====
-- platform/linux/input.c, consume_surface_report: every event keeps the contacts in their bounds.
use gtscreen.Prelude.{
  ℕ, ◌<◌, ◌≡◌, refl, sym, subst, ap, ◌∙◌, if_true, if_false, inl, inr, Bool, true, false, some,
  List, [], ◌∷◌, ◌++◌, arith, leb, if◌then◌else◌, Bool-cases, ℤ, pos, negsuc, set, length,
  length-set, get_elem?-some, All-append, All-get_elem?,
}
use gtscreen.Input.Driver.{Pvt}
use gtscreen.Input.Surface.{
  Scan, Step, next, ended, overrun, Contact, get_id, is_zero, is_negative, max_contacts,
}
use gtscreen.Input.Surface.Events.{
  contact_at, send_contact, enter_slot, on_slot, move_slot, leave_slot, then_step,
}
use gtscreen.Input.Surface.Bounds.{Within, Contacts, Slot, InField, ScanOk, StepOk}

touched_size :
    (b : Bool) (mags : List ℤ) (c : ℕ)
    → length mags ≡ 64
    → length (if b then set mags c (pos 1) else mags) ≡ 64
touched_size true mags c h = rw (length-set mags c (pos 1)) h
touched_size false mags c h = h

module _ {F : Type 0} where
  then_step-Ok :
      (r : Step F) (k : Scan F → Step F)
      → StepOk r
      → ((s : Scan F) → ScanOk s → StepOk (k s))
      → StepOk (then_step r k)
  then_step-Ok (next s) k h f = f s h
  then_step-Ok (ended s) k h f = h
  then_step-Ok overrun k h f = h

  -- A contact that exists has its message.
  contact_at-InField :
      (pvt : Pvt F) (c : ℕ)
      → Contacts pvt
      → c < 64
      → (m : Contact) × (contact_at pvt (pos c) ≡ some m) × InField m
  unfolding contact_at
  contact_at-InField pvt c h lt =
      let mag_at = get_elem?-some pvt.contact_mag c (rw h.mags lt) in
      let x_at = get_elem?-some pvt.contact_x c (rw h.x_axis.size lt) in
      let y_at = get_elem?-some pvt.contact_y c (rw h.y_axis.size lt) in
      (
        record {
          code = c;
          val = mag_at.0;
          ext = pvt.contact_magmax;
          xpos = x_at.0;
          ypos = y_at.0;
          xmax = pvt.contact_xmax;
          ymax = pvt.contact_ymax;
        },
        rw (contact_at, mag_at.1, x_at.1, y_at.1) refl,
        (
          lt,
          All-get_elem? (Within pvt.contact_xmax) pvt.contact_x c x_at.0 h.x_axis.within x_at.1,
          All-get_elem? (Within pvt.contact_ymax) pvt.contact_y c y_at.0 h.y_axis.within y_at.1,
        ),
      )

  -- The step is known.
  pub next-Ok : {r : Step F} {s : Scan F} → r ≡ next s → ScanOk s → StepOk r
  next-Ok e h = subst StepOk (sym e) h

  abbrev pub told_of : Scan F → Contact → Scan F
  told_of s m = record s { sent = s.sent ++ m ∷ []; send_msg = false }

  pub sent_from :
      (s : Scan F) (a : ℤ)
      → s.active_contact ≡ a
      → Contacts s.pvt
      → Slot a
      → is_negative a ≡ false
      → (m : Contact) × (send_contact s ≡ next (told_of s m)) × InField m
  unfolding send_contact
  sent_from s (negsuc _) e h slot n = absurd (ground arith)
  sent_from s (pos c) e h slot n =
      let found = contact_at-InField s.pvt c h slot in
      let there : contact_at s.pvt s.active_contact ≡ some found.0 = rw e found.1 in
      (found.0, rw (send_contact, there) refl, found.2)

  pub told_of-Ok : (s : Scan F) (m : Contact) → ScanOk s → InField m → ScanOk (told_of s m)
  told_of-Ok s m h f = record {
    contacts = h.contacts;
    slot = h.slot;
    idle_id = h.idle_id;
    idle_msg = λ n. refl;
    told = All-append InField s.sent (m ∷ []) h.told (f, tt);
  }

  enter_slot-Ok : (c : ℕ) (s : Scan F) → ScanOk s → c < 64 → StepOk (enter_slot c s)
  unfolding enter_slot
  enter_slot-Ok c s h lt =
      let mag_at = get_elem?-some s.pvt.contact_mag c (rw h.contacts.mags lt) in
      let mags = s.pvt.contact_mag in
      let touched = if is_zero mag_at.0 then set mags c (pos 1) else mags in
      let t = record s {
        pvt = record s.pvt { contact_mag = touched };
        active_contact = pos c;
        active_id = get_id s.pvt.contact_ids (pos c);
      } in
      next-Ok {s = t} (rw (enter_slot, mag_at.1) refl) (record {
        contacts = record {
          ids = h.contacts.ids;
          mags = touched_size (is_zero mag_at.0) mags c h.contacts.mags;
          x_axis = h.contacts.x_axis;
          y_axis = h.contacts.y_axis;
        };
        slot = lt;
        idle_id = λ n. absurd (ground arith);
        idle_msg = λ n. absurd (ground arith);
        told = h.told;
      })

  leave_slot-Ok : (s : Scan F) → ScanOk s → s.send_msg ≡ false → ScanOk (leave_slot s)
  leave_slot-Ok s h quiet = record {
    contacts = h.contacts;
    slot = tt;
    idle_id = λ n. refl;
    idle_msg = λ n. quiet;
    told = h.told;
  }

  move_slot-Ok : (v : ℤ) (s : Scan F) → ScanOk s → s.send_msg ≡ false → StepOk (move_slot v s)
  unfolding move_slot
  move_slot-Ok (negsuc _) s h quiet = leave_slot-Ok s h quiet
  move_slot-Ok (pos c) s h quiet = elim (Bool-cases (leb max_contacts c)) [
    | inl out ↦ next-Ok {s = leave_slot s} (rw out) (leave_slot-Ok s h quiet)
    | inr inside ↦ subst StepOk (sym (rw inside)) (enter_slot-Ok c s h (ground arith))
  ]

  -- A pending message, or an id, is that of a contact.
  pub pending_live :
      (s : Scan F) → ScanOk s → s.send_msg ≡ true → is_negative s.active_contact ≡ false
  pending_live s h pending = elim (Bool-cases (is_negative s.active_contact)) [
    | inl idle ↦ absurd (ground (arith, h.idle_msg idle))
    | inr live ↦ live
  ]

  pub id_live :
      (s : Scan F)
      → ScanOk s
      → is_negative s.active_id ≡ false
      → is_negative s.active_contact ≡ false
  id_live s h id = elim (Bool-cases (is_negative s.active_contact)) [
    | inl idle ↦ absurd (ground (arith, h.idle_id idle))
    | inr live ↦ live
  ]

  pub on_slot-Ok : (v : ℤ) (s : Scan F) → ScanOk s → StepOk (on_slot v s)
  unfolding on_slot
  on_slot-Ok v s h = elim (Bool-cases s.send_msg) [
    | inl pending ↦
        let message =
          sent_from s s.active_contact refl h.contacts h.slot (pending_live s h pending) in
        let e : on_slot v s ≡ move_slot v (told_of s message.0) =
          ap (λ (r : Step F). then_step r (move_slot v)) (if_true _ _ pending ∙ message.1) in
        subst StepOk (sym e)
          (move_slot-Ok v (told_of s message.0) (told_of-Ok s message.0 h message.2) refl)
    | inr quiet ↦
        let e : on_slot v s ≡ move_slot v s =
          ap (λ (r : Step F). then_step r (move_slot v)) (if_false _ _ quiet) in
        subst StepOk (sym e) (move_slot-Ok v s h quiet)
  ]
