-- ===== src/Input/Surface/Report.antt =====
-- platform/linux/input.c, consume_surface_report: contacts that appear and disappear, and the whole
-- loop over the events.
use gtscreen.Prelude.{
  ℕ, suc, ◌+◌, ◌-◌, ◌%◌, ◌^◌, ◌≡◌, refl, sym, subst, ap, ◌∙◌, if_true, if_false, inl, inr, Bool,
  true, false, Option, none, some, List, [], ◌∷◌, arith, leb, ◌==◌, if◌then◌else◌, Bool-cases, ℤ,
  pos, negsuc, set, length, drop, length-set, All,
}
use gtscreen.Input.Driver.{Pvt}
use gtscreen.Input.Surface.{
  Scan, Step, next, ended, overrun, Contact, InputEvent, set_id, get_id, minus_one, is_negative,
  first_contact, max_contacts, abs_mt_position_x, abs_mt_position_y, abs_mt_slot,
  abs_mt_tracking_id, abs_mt_touch_major, abs_mt_pressure, syn_mt_report,
}
use gtscreen.Input.Surface.Events.{
  forget_contact, release_contact, on_tracking_id, on_surface_event, on_slot, on_position_x,
  on_position_y, on_touch_major, on_pressure, on_other, scan_events, scan_start, reported,
  consume_surface_report, then_step,
}
use gtscreen.Input.Surface.Bounds.{Contacts, Slot, InField, ScanOk, StepOk}
use gtscreen.Input.Surface.Safe.{next-Ok, told_of, sent_from, told_of-Ok, on_slot-Ok}
use gtscreen.Input.Surface.Moves.{
  write_at-live, after_write, on_position_x-Ok, on_position_y-Ok, on_touch_major-Ok, on_pressure-Ok,
  on_other-Ok,
}

length-set_id : (ids : List ℤ) (a v : ℤ) → length (set_id ids a v).0 ≡ length ids
unfolding set_id
length-set_id ids (negsuc _) v = refl
length-set_id ids (pos c) v = elim (Bool-cases (leb max_contacts c)) [
  | inl out ↦ rw out refl
  | inr inside ↦ rw inside (length-set ids c v)
]

set_id-minus_one : (ids : List ℤ) (a : ℤ) → is_negative (set_id ids a minus_one).1 ≡ true
unfolding set_id
set_id-minus_one ids (negsuc _) = refl
set_id-minus_one ids (pos c) = ground arith

first_contact-Slot :
    (a : ℤ) → Slot a → Slot (first_contact a) × (is_negative (first_contact a) ≡ false)
first_contact-Slot (negsuc _) h = (omega arith, refl)
first_contact-Slot (pos c) h = (h, refl)

get_id-idle : (ids : List ℤ) (a : ℤ) → is_negative a ≡ true → is_negative (get_id ids a) ≡ true
unfolding get_id
get_id-idle ids (negsuc _) h = refl
get_id-idle ids (pos c) h = absurd (ground arith)

module _ {F : Type 0} where
  release_contact-Ok :
      (s : Scan F) → ScanOk s → is_negative s.active_contact ≡ false → StepOk (release_contact s)
  unfolding release_contact forget_contact
  release_contact-Ok s h live =
      let w =
        write_at-live s.pvt.contact_mag s.active_contact (pos 0) h.contacts.mags h.slot live in
      let mags = set s.pvt.contact_mag w.0 (pos 0) in
      let t : Scan F = record s { pvt = record s.pvt { contact_mag = mags } } in
      let contacts : Contacts t.pvt = record {
        ids = h.contacts.ids;
        mags = rw (length-set s.pvt.contact_mag w.0 (pos 0)) h.contacts.mags;
        x_axis = h.contacts.x_axis;
        y_axis = h.contacts.y_axis;
      } in
      let ok : ScanOk t = record {
        contacts = contacts;
        slot = h.slot;
        idle_id = h.idle_id;
        idle_msg = h.idle_msg;
        told = h.told;
      } in
      let message = sent_from t t.active_contact refl contacts h.slot live in
      let u = told_of t message.0 in
      let sent = told_of-Ok t message.0 ok message.2 in
      let r = set_id s.pvt.contact_ids s.active_contact minus_one in
      let v : Scan F = record u {
        pvt = record u.pvt { contact_ids = r.0 };
        active_id = r.1;
        active_contact = minus_one;
      } in
      next-Ok {s = v}
        (after_write _ _ w.1 ∙ ap (λ (q : Step F). then_step q forget_contact) message.1)
        (record {
          contacts = record {
            ids = length-set_id s.pvt.contact_ids s.active_contact minus_one ∙ h.contacts.ids;
            mags = contacts.mags;
            x_axis = h.contacts.x_axis;
            y_axis = h.contacts.y_axis;
          };
          slot = tt;
          idle_id = λ n. set_id-minus_one s.pvt.contact_ids s.active_contact;
          idle_msg = λ n. refl;
          told = sent.told;
        })

  on_tracking_id-Ok : (v : ℤ) (s : Scan F) → ScanOk s → StepOk (on_tracking_id v s)
  unfolding on_tracking_id
  on_tracking_id-Ok v s h =
      let a = first_contact s.active_contact in
      let first = first_contact-Slot s.active_contact h.slot in
      let r = set_id s.pvt.contact_ids a v in
      let t : Scan F = record s { active_contact = a } in
      let ok : ScanOk t = record {
        contacts = h.contacts;
        slot = first.0;
        idle_id = λ n. absurd (ground (arith, first.1));
        idle_msg = λ n. absurd (ground (arith, first.1));
        told = h.told;
      } in
      let u : Scan F = record t {
        pvt = record t.pvt { contact_ids = r.0 };
        active_id = r.1;
        send_msg = true;
      } in
      elim (Bool-cases (is_negative v)) [
        | inl released ↦ subst StepOk (sym (if_true _ _ released)) (release_contact-Ok t ok first.1)
        | inr placed ↦ next-Ok {s = u} (if_false _ _ placed) (record {
          contacts = record {
            ids = length-set_id s.pvt.contact_ids a v ∙ h.contacts.ids;
            mags = h.contacts.mags;
            x_axis = h.contacts.x_axis;
            y_axis = h.contacts.y_axis;
          };
          slot = first.0;
          idle_id = λ n. absurd (ground (arith, first.1));
          idle_msg = λ n. absurd (ground (arith, first.1));
          told = h.told;
        })
      ]

  choose-Ok : (b : Bool) (x y : Step F) → StepOk x → StepOk y → StepOk (if b then x else y)
  choose-Ok true x y h k = h
  choose-Ok false x y h k = k

  on_surface_event-Ok : (e : InputEvent) (s : Scan F) → ScanOk s → StepOk (on_surface_event e s)
  unfolding on_surface_event
  on_surface_event-Ok e s h =
      let last : Step F = if e.code == syn_mt_report then next s else on_other e.code s in
      let last_ok : StepOk last =
        choose-Ok (e.code == syn_mt_report) (next s) (on_other e.code s) h
          (on_other-Ok e.code s h) in
      let pressure : Step F = if e.code == abs_mt_pressure then on_pressure e.value s else last in
      let pressure_ok : StepOk pressure =
        choose-Ok (e.code == abs_mt_pressure) (on_pressure e.value s) last
          (on_pressure-Ok e.value s h) last_ok in
      let touch_major : Step F =
        if e.code == abs_mt_touch_major then on_touch_major e.value s else pressure in
      let touch_major_ok : StepOk touch_major =
        choose-Ok (e.code == abs_mt_touch_major) (on_touch_major e.value s) pressure
          (on_touch_major-Ok e.value s h) pressure_ok in
      let position_y : Step F =
        if e.code == abs_mt_position_y then on_position_y e.value s else touch_major in
      let position_y_ok : StepOk position_y =
        choose-Ok (e.code == abs_mt_position_y) (on_position_y e.value s) touch_major
          (on_position_y-Ok e.value s h) touch_major_ok in
      let position_x : Step F =
        if e.code == abs_mt_position_x then on_position_x e.value s else position_y in
      let position_x_ok : StepOk position_x =
        choose-Ok (e.code == abs_mt_position_x) (on_position_x e.value s) position_y
          (on_position_x-Ok e.value s h) position_y_ok in
      let tracking_id : Step F =
        if e.code == abs_mt_tracking_id then on_tracking_id e.value s else position_x in
      let tracking_id_ok : StepOk tracking_id =
        choose-Ok (e.code == abs_mt_tracking_id) (on_tracking_id e.value s) position_x
          (on_tracking_id-Ok e.value s h) position_x_ok in
      choose-Ok (e.code == abs_mt_slot) (on_slot e.value s) tracking_id (on_slot-Ok e.value s h)
        tracking_id_ok

  abbrev Scanned : Option (ℕ × Scan F) → Type 0
  Scanned none = ⊥
  Scanned (some (_, s)) = ScanOk s

  scan_events-Ok :
      (es : List InputEvent) (i : ℕ) (s : Scan F) → ScanOk s → Scanned (scan_events es i s)
  unfolding scan_events
  scan_events-Ok [] i s h = h
  scan_events-Ok (e ∷ es) i s h =
      go (on_surface_event e s) (on_surface_event-Ok e s h) (scan_events-Ok es (suc i))
    where
      go :
          (r : Step F)
          → StepOk r
          → ((t : Scan F) → ScanOk t → Scanned (scan_events es (suc i) t))
          → Scanned (elim r [
            | next t ↦ scan_events es (suc i) t
            | ended t ↦ some (i - 1, t)
            | overrun ↦ none
          ])
      go (next t) k f = f t k
      go (ended t) k f = k
      go overrun k f = k

-- Of a device whose contacts are in bounds, and any events, consume_surface_report accesses no array
-- out of its bounds; it leaves the contacts in bounds again, and tells the client of contacts below
-- 64 only, each with its position between 0 and the maximum of the message.
pub consume_surface_report-InField :
    {F : Type 0} (events : List InputEvent) (start : ℕ) (pvt : Pvt F)
    → Contacts pvt
    → Slot pvt.active_contact
    → (n : ℕ) × (pvt' : Pvt F) × (sent : List Contact) × (consume_surface_report events start pvt
        ≡ some (n, pvt', sent))
      × Contacts pvt'
      × Slot pvt'.active_contact
      × All InField sent
unfolding consume_surface_report reported
consume_surface_report-InField {F} events start pvt h slot =
    go (scan_events (drop start events) start (scan_start pvt)) (
      scan_events-Ok (drop start events) start (scan_start pvt) (record {
        contacts = h;
        slot = slot;
        idle_id = λ n. get_id-idle pvt.contact_ids pvt.active_contact n;
        idle_msg = λ n. refl;
        told = tt;
      }))
  where
    go :
        (r : Option (ℕ × Scan F))
        → Scanned r
        → (n : ℕ) × (pvt' : Pvt F) × (sent : List Contact) × (reported start r
            ≡ some (n, pvt', sent))
          × Contacts pvt'
          × Slot pvt'.active_contact
          × All InField sent
    go none k = elim k [ ]
    go (some (i, s)) k = (
      (i + 2 ^ 32 - start) % 2 ^ 32,
      record s.pvt { active_contact = s.active_contact },
      s.sent,
      refl,
      record {
        ids = k.contacts.ids;
        mags = k.contacts.mags;
        x_axis = k.contacts.x_axis;
        y_axis = k.contacts.y_axis;
      },
      k.slot,
      k.told,
    )
