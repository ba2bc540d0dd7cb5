-- ===== src/Input/Evdev/Loop.antt =====
-- platform/linux/input.c, transceive_evdev: what an event leaves behind.
use gtscreen.Prelude.{
  ℕ, zero, suc, ◌-◌, ◌^◌, ◌≤◌, ◌<◌, ◌≡◌, sym, subst, if_true, if_false, inl, inr, Bool, true, false,
  not, ◌&&◌, ◌||◌, Option, some, List, [], ◌∷◌, arith, leb, ◌==◌, if◌then◌else◌, Bool-cases, Run,
  ok, fault, stuck, get_elem?, length, drop, length-drop, Status, success, failure,
}
use gtscreen.Os.{Os}
use gtscreen.Protocol.{Input}
use gtscreen.Server.State.{S, Cmd}
use gtscreen.Input.Driver.{Pvt}
use gtscreen.Input.Keys.{
  Keyed, evdev_translate_keycode, preempt_keycodes, Preempt, passed, swallowed, hotkey, sigterm,
}
use gtscreen.Server.Screens.{hotkey_callback}
use gtscreen.Input.Surface.{InputEvent, Contact, abs_mt_slot, abs_mt_tool_y}
use gtscreen.Input.Surface.Report.{consume_surface_report-InField}
use gtscreen.Input.Surface.Consumed.{run_length, consumed, consume_surface_report-consumed}
use gtscreen.Input.Surface.Progress.{is_surface}
use gtscreen.Input.Pointer.{Float, axis_x, axis_y, to_bits, axis_x, axis_y}
use gtscreen.Input.Evdev.{
  rel_wheel, load_device, send_contacts, input_key, abs_cnt, ev_key, ev_rel, ev_abs, Handled,
}
use gtscreen.Input.Evdev.Placed.{
  Holds, Holds-bind, Placed, HandledOk, keycode-Placed, trackpad-Placed,
}
use gtscreen.Input.Evdev.Events.{
  deliver, translated, reported_surface, tracked, on_key, on_rel, on_abs, on_evdev_event,
}

if-Handled :
    {F : Type 0} (left : ℕ) (b : Bool) (x y : Handled F)
    → HandledOk left x
    → HandledOk left y
    → HandledOk left (if b then x else y)
if-Handled left true x y h k = h
if-Handled left false x y h k = k

if-Holds :
    {A : Type 0} (P : A → Type 0) (b : Bool) (x y : Cmd A) (s : S)
    → Holds (x s) P
    → Holds (y s) P
    → Holds ((if b then x else y) s) P
if-Holds P true x y s h k = h
if-Holds P false x y s h k = k

run-front :
    (es : List InputEvent) (i : ℕ) (e : InputEvent)
    → get_elem? es i ≡ some e
    → is_surface e.code ≡ true
    → 0 < run_length (drop i es)
run-front [] i e h surface = absurd (ground arith)
run-front (x ∷ es) zero e h surface = ground arith
run-front (x ∷ es) (suc i) e h surface = run-front es i e h surface

run_length-le : (es : List InputEvent) → run_length es ≤ length es
run_length-le [] = omega arith
run_length-le (e ∷ es) = ground (arith, run_length-le es)

pub i-lt : (es : List InputEvent) (i : ℕ) (e : InputEvent) → get_elem? es i ≡ some e → i < length es
i-lt [] i e h = absurd (ground arith)
i-lt (x ∷ es) zero e h = omega arith
i-lt (x ∷ es) (suc i) e h = omega (arith, i-lt es i e h)

consumed-le : (es : List InputEvent) → consumed es ≤ length es
consumed-le es = ground (arith, run_length-le es)

consumed_is :
    {F : Type 0} (o : Option (ℕ × Pvt F × List Contact)) (n m : ℕ) (p q : Pvt F)
    (l r : List Contact)
    → o ≡ some (n, p, l)
    → o ≡ some (m, q, r)
    → m ≡ n
consumed_is o n m p q l r e f = cc

anything : {A : Type 0} (r : Run S A) → Holds r (λ a. Unit {0})
anything (ok a s) = tt
anything fault = tt
anything stuck = tt

module _ {F : Type 0} (fl : Float F) (os : Os) (fuel : ℕ) (junk : Input) (bits : ℕ)
    (has_hotkey : Bool) (self device_id : ℕ) where
  deliver-Ok :
      (left : ℕ) (q : Preempt) (pvt : Pvt F) (m : Input) (s : S)
      → Placed pvt
      → Holds (deliver fl os fuel junk bits has_hotkey self device_id q pvt m s) (HandledOk left)
  unfolding deliver
  deliver-Ok left passed pvt m s h = h
  deliver-Ok left swallowed pvt m s h = h
  deliver-Ok left (hotkey hk) pvt m s h =
      Holds-bind (hotkey_callback os fuel junk bits hk) _ (λ r. Unit {0}) (HandledOk left) s
        (anything (hotkey_callback os fuel junk bits hk s)) (λ r t _. h)
  deliver-Ok left sigterm pvt m s h = h

  translated-Ok :
      (left : ℕ) (r : Keyed F) (o : Status) (s : S)
      → Placed r.pvt
      → Holds (translated fl os fuel junk bits has_hotkey self device_id r o s) (HandledOk left)
  unfolding translated
  translated-Ok left r failure s h = h
  translated-Ok left r success s h =
      deliver-Ok left (preempt_keycodes has_hotkey r.device r.msg) r.pvt r.msg s h

  key-Ok :
      (left : ℕ) (e : InputEvent) (pvt : Pvt F) (s : S)
      → Placed pvt
      → Holds (on_key fl os fuel junk bits has_hotkey self device_id e pvt s) (HandledOk left)
  unfolding on_key
  key-Ok left e pvt s h =
      Holds-bind (load_device self) _ (λ d. Unit {0}) (HandledOk left) s
        (anything (load_device self s))
        λ d t _.
          let m : Input = record {
            val = to_bits e.value;
            ext = 0;
            code = e.code;
            type = input_key;
            id = device_id;
          } in
          let r = evdev_translate_keycode d pvt m in
          translated-Ok left r r.status _ (keycode-Placed d pvt m h)

  rel-Ok :
      (left : ℕ) (e : InputEvent) (pvt : Pvt F)
      → Placed pvt
      → HandledOk left (on_rel fl os fuel junk bits has_hotkey self device_id e pvt)
  unfolding on_rel
  rel-Ok left e pvt h =
      if-Handled left (not (pvt.vscroll_amount == 0) && (e.code == rel_wheel)) _ _ h
        (if-Handled left (not (pvt.relative_accel == 0)) _ _ h h)

  surface-Ok :
      (left : ℕ) (cl : Option ℕ) (n : ℕ) (pvt : Pvt F) (sent : List Contact) (s : S)
      → Placed pvt
      → n ≤ left
      → Holds
          (reported_surface fl os fuel junk bits has_hotkey self device_id cl
            (some (n, pvt, sent))
            s)
          (HandledOk left)
  unfolding reported_surface
  surface-Ok left cl n pvt sent s h le =
      Holds-bind (send_contacts os bits cl sent) _ (λ r. Unit {0}) (HandledOk left) s
        (anything (send_contacts os bits cl sent s)) (λ r t _. (h, le))

  tracked-Ok :
      (left : ℕ) (pvt : Pvt F) (m : Input) (o : Status)
      → Placed pvt
      → HandledOk left (tracked fl os fuel junk bits has_hotkey self device_id pvt m o)
  tracked-Ok left pvt m success h = h
  tracked-Ok left pvt m failure h = h

  abs-Ok :
      (events : List InputEvent) (i : ℕ) (cl : Option ℕ) (e : InputEvent) (pvt : Pvt F) (s : S)
      → get_elem? events i ≡ some e
      → length events < 2 ^ 32
      → Placed pvt
      → Holds
          (on_abs fl os fuel junk bits has_hotkey self device_id events i cl e pvt s)
          (HandledOk (length events - i))
  unfolding on_abs
  abs-Ok events i cl e pvt s at fits h =
      elim (Bool-cases (leb abs_mt_slot e.code && leb e.code abs_mt_tool_y)) [
        | inl surface ↦
            let run = run-front events i e at (ground arith) in
            let r =
              consume_surface_report-consumed events i pvt h.contacts h.slot run
                (ground (arith, length-drop i events, i-lt events i e at)) in
            let kept = consume_surface_report-InField events i pvt h.contacts h.slot in
            let n : kept.0 ≡ consumed (drop i events) = consumed_is _ _ _ _ _ _ _ r.2 kept.3 in
            subst (λ (c : Cmd (Handled F)). Holds (c s) (HandledOk (length events - i)))
              (sym (if_true _ _ surface))
              (subst
                (λ (o : Option (ℕ × Pvt F × List Contact)).
                  Holds (reported_surface fl os fuel junk bits has_hotkey self device_id cl o s)
                    (HandledOk (length events - i)))
                (sym kept.3)
                (surface-Ok (length events - i) cl kept.0 kept.1 kept.2 s
                  (record { contacts = kept.4; slot = kept.5 })
                  (omega (arith, n, consumed-le (drop i events), length-drop i events))))
        | inr other ↦
            subst (λ (c : Cmd (Handled F)). Holds (c s) (HandledOk (length events - i)))
              (sym (if_false _ _ other))
              (if-Holds (HandledOk (length events - i)) (leb abs_cnt e.code) _ _ s h (
                if-Holds (HandledOk (length events - i))
                  (pvt.is_trackpad && ((e.code == axis_x) || (e.code == axis_y))) _ _ s
                  (tracked-Ok (length events - i) _ _ _ (trackpad-Placed fl pvt _ _ _ h)) h))
      ]

  pub event-Ok :
      (events : List InputEvent) (i : ℕ) (cl : Option ℕ) (e : InputEvent) (pvt : Pvt F) (s : S)
      → get_elem? events i ≡ some e
      → length events < 2 ^ 32
      → Placed pvt
      → Holds
          (on_evdev_event fl os fuel junk bits has_hotkey self device_id events i cl e pvt s)
          (HandledOk (length events - i))
  unfolding on_evdev_event
  event-Ok events i cl e pvt s at fits h =
      if-Holds (HandledOk (length events - i)) (e.type == ev_key) _ _ s
        (key-Ok (length events - i) e pvt s h)
        (if-Holds (HandledOk (length events - i)) (e.type == ev_rel) _ _ s
          (rel-Ok (length events - i) e pvt h)
          (if-Holds (HandledOk (length events - i)) (e.type == ev_abs) _ _ s
            (abs-Ok events i cl e pvt s at fits h) h))
