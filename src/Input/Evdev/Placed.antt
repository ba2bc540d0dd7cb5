-- ===== src/Input/Evdev/Placed.antt =====
-- platform/linux/input.c, transceive_evdev: the events of keys and of axes leave the contacts of
-- a device alone.
use gtscreen.Prelude.{
  ℕ, ◌≤◌, sym, subst, ap, ◌∙◌, if_true, if_false, inl, inr, Bool, true, false, not, ◌&&◌, Option,
  none, some, ltb, ◌==◌, if◌then◌else◌, Bool-cases, ◌>>=◌, Run, ok, fault, stuck, Status,
}
use gtscreen.Protocol.{Input}
use gtscreen.Server.State.{S, Cmd, Device}
use gtscreen.Input.Driver.{Pvt}
use gtscreen.Input.Keys.{
  Keyed, keyed, row, is, trackpad_tap_up, touched, tap_stabl, evdev_translate_btns,
  evdev_translate_keycode,
}
use gtscreen.Input.Kernel.{btn_touch}
use gtscreen.Input.Keymap.{keymap, buttonmap}
use gtscreen.Input.Time.{usecs_elapsed}
use gtscreen.Input.Surface.Bounds.{Contacts, Slot}
use gtscreen.Input.Pointer.{Float, axis_x, axis_y, abs_to_trackpad, move_pointer}
use gtscreen.Input.Evdev.{Handled, skipped, consumed, emitted}

-- Whatever a command returns, if it returns.
abbrev pub Holds : {A : Type 0} → Run S A → (A → Type 0) → Type 0
Holds (ok a s) P = P a
Holds fault P = Unit {0}
Holds stuck P = Unit {0}

pub Holds-bind :
    {A B : Type 0} (m : Cmd A) (f : A → Cmd B) (P : A → Type 0) (Q : B → Type 0) (s : S)
    → Holds (m s) P
    → ((a : A) (t : S) → P a → Holds (f a t) Q)
    → Holds ((m >>= f) s) Q
Holds-bind m f P Q s h k = go (m s) h
  where
    go :
        (r : Run S _)
        → Holds r P
        → Holds (elim r [ ok a t ↦ f a t | fault ↦ fault | stuck ↦ stuck ]) Q
    go (ok a t) p = k a t p
    go fault p = tt
    go stuck p = tt

-- The contacts of a device and its active contact are in bounds.
pub record Placed {F : Type 0} (pvt : Pvt F) : Type 0 where
  pub contacts : Contacts pvt
  pub slot : Slot pvt.active_contact

module _ {F : Type 0} where
  tap_up-Placed : (pvt : Pvt F) → Placed pvt → Placed (trackpad_tap_up pvt)
  unfolding trackpad_tap_up
  tap_up-Placed pvt h = record {
    contacts = record {
      ids = h.contacts.ids;
      mags = h.contacts.mags;
      x_axis = h.contacts.x_axis;
      y_axis = h.contacts.y_axis;
    };
    slot = h.slot;
  }

  tap_check-Placed : (pvt : Pvt F) → Placed pvt → Placed (record pvt { tap_check = true })
  tap_check-Placed pvt h = record {
    contacts = record {
      ids = h.contacts.ids;
      mags = h.contacts.mags;
      x_axis = h.contacts.x_axis;
      y_axis = h.contacts.y_axis;
    };
    slot = h.slot;
  }

  if-Placed :
      (b : Bool) (x y : Keyed F) → Placed x.pvt → Placed y.pvt → Placed (if b then x else y).pvt
  if-Placed true x y h k = h
  if-Placed false x y h k = k

  touched-Placed :
      (d : Device) (pvt : Pvt F) (msg : Input) → Placed pvt → Placed (touched d pvt msg).pvt
  unfolding touched
  touched-Placed d pvt msg h = if-Placed (not pvt.is_trackpad) _ _ h (
      if-Placed (msg.val == 0) _ _ (tap_up-Placed pvt h) (
        if-Placed
          (ltb (usecs_elapsed pvt.curtime pvt.last_tap_up) pvt.tap_delay
            && not (ltb (usecs_elapsed pvt.curtime pvt.last_bigmotion) tap_stabl))
          _ _ (tap_check-Placed pvt h) h))

  table_Placed :
      (o : Option ℕ) (f : ℕ → Keyed F) (x : Keyed F)
      → ((c : ℕ) → Placed (f c).pvt)
      → Placed x.pvt
      → (let r : Keyed F = elim o [ some c ↦ f c | none ↦ x ] in Placed r.pvt)
  table_Placed (some c) f x h k = h c
  table_Placed none f x h k = k

  btns-Placed :
      (d : Device) (pvt : Pvt F) (msg : Input)
      → Placed pvt
      → Placed (evdev_translate_btns d pvt msg).pvt
  unfolding evdev_translate_btns
  btns-Placed d pvt msg h = if-Placed (is pvt.touch_lbtn msg.code) _ _ h (
      if-Placed (is pvt.touch_rbtn msg.code) _ _ h (
        if-Placed (is pvt.touch_mbtn msg.code) _ _ h (
          if-Placed (is pvt.touch_sbtn msg.code) _ _ (side pvt.is_trackpad) (
            table_Placed (row msg.code buttonmap) (λ c. keyed d pvt msg c) _ (λ c. h)
              (if-Placed (msg.code == btn_touch) _ _ (touched-Placed d pvt msg h) h)))))
    where
      side : (b : Bool) → Placed (if b then trackpad_tap_up pvt else pvt)
      side true = tap_up-Placed pvt h
      side false = h

  pub keycode-Placed :
      (d : Device) (pvt : Pvt F) (msg : Input)
      → Placed pvt
      → Placed (evdev_translate_keycode d pvt msg).pvt
  unfolding evdev_translate_keycode
  keycode-Placed d pvt msg h =
      table_Placed (row msg.code keymap) (λ c. keyed d pvt msg c) (evdev_translate_btns d pvt msg)
        (λ c. h) (btns-Placed d pvt msg h)

-- What was handled leaves the contacts in bounds, and no more is consumed than there is.
abbrev pub HandledOk : {F : Type 0} → ℕ → Handled F → Type 0
HandledOk left (skipped p) = Placed p
HandledOk left (consumed n p) = Placed p × (n ≤ left)
HandledOk left (emitted p m) = Placed p

module _ {F : Type 0} (fl : Float F) where
  pointer-Placed :
      (axis : ℕ) (delta lo hi : F) (pvt : Pvt F) (msg : Input)
      → Placed pvt
      → Placed (move_pointer fl axis delta lo hi pvt msg).0
  unfolding move_pointer
  pointer-Placed axis delta lo hi pvt msg h = elim (Bool-cases (ltb 0 pvt.tap_reacquire)) [
    | inl again ↦
        subst Placed (sym (ap (λ (r : Pvt F × Input × Status). r.0) (if_true _ _ again))) (record {
          contacts = record {
            ids = h.contacts.ids;
            mags = h.contacts.mags;
            x_axis = h.contacts.x_axis;
            y_axis = h.contacts.y_axis;
          };
          slot = h.slot;
        })
    | inr moved ↦
        subst Placed (sym (ap (λ (r : Pvt F × Input × Status). r.0) (if_false _ _ moved))) (record {
          contacts = record {
            ids = h.contacts.ids;
            mags = h.contacts.mags;
            x_axis = h.contacts.x_axis;
            y_axis = h.contacts.y_axis;
          };
          slot = h.slot;
        })
  ]

  pub trackpad-Placed :
      (pvt : Pvt F) (msg : Input) (lo hi : F)
      → Placed pvt
      → Placed (abs_to_trackpad fl pvt msg lo hi).0
  unfolding abs_to_trackpad
  trackpad-Placed pvt msg lo hi h = elim (Bool-cases (msg.code == axis_x)) [
    | inl x ↦
        subst Placed (sym (ap first (if_true _ _ x)))
          (pointer-Placed axis_x _ lo hi (record pvt { track_x = _ }) msg (moved_x _))
    | inr other ↦ elim (Bool-cases (msg.code == axis_y)) [
      | inl y ↦
          subst Placed (sym (ap first (if_false _ _ other ∙ if_true _ _ y)))
            (pointer-Placed axis_y _ lo hi (record pvt { track_y = _ }) msg (moved_y _))
      | inr none_of_them ↦
          subst Placed (sym (ap first (if_false _ _ other ∙ if_false _ _ none_of_them))) h
    ]
  ]
    where
      first : Pvt F × Input × Status → Pvt F
      first r = r.0

      moved_x : (v : F) → Placed (record pvt { track_x = v })
      moved_x v = record {
        contacts = record {
          ids = h.contacts.ids;
          mags = h.contacts.mags;
          x_axis = h.contacts.x_axis;
          y_axis = h.contacts.y_axis;
        };
        slot = h.slot;
      }

      moved_y : (v : F) → Placed (record pvt { track_y = v })
      moved_y v = record {
        contacts = record {
          ids = h.contacts.ids;
          mags = h.contacts.mags;
          x_axis = h.contacts.x_axis;
          y_axis = h.contacts.y_axis;
        };
        slot = h.slot;
      }
