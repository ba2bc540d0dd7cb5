-- ===== src/Input/Evdev/Ends.antt =====
-- platform/linux/input.c, transceive_evdev: the loop over the events ends.
use gtscreen.Prelude.{
  ℕ, zero, suc, ◌+◌, ◌-◌, ◌%◌, ◌^◌, ◌<◌, ◌≡◌, sym, subst, inl, inr, Bool, false, Option, none, some,
  List, arith, Option-cases, ok, stuck, get_elem?, length, Status, success, failure, Ends,
  Ends-bind,
}
use gtscreen.Os.{Os}
use gtscreen.Protocol.{Input}
use gtscreen.Message.{write_msg}
use gtscreen.Server.State.{S, Cmd, sys}
use gtscreen.Input.Driver.{Pvt}
use gtscreen.Input.Surface.{InputEvent}
use gtscreen.Input.Pointer.{Float}
use gtscreen.Input.Evdev.{Handled, skipped, emitted, consumed as consumed_events, input_msg}
use gtscreen.Input.Evdev.Placed.{Holds, Placed, HandledOk}
use gtscreen.Input.Evdev.Events.{proceed, evdev_round, on_evdev_event, evdev_loop}
use gtscreen.Input.Evdev.Loop.{event-Ok, i-lt}

module _ {F : Type 0} (fl : Float F) (os : Os) (fuel : ℕ) (junk : Input) (bits : ℕ)
    (has_hotkey : Bool) (self device_id : ℕ) where
  -- The handling of one of the events does not end, in some state.
  abbrev pub Stalled : List InputEvent → Option ℕ → Type 0
  Stalled events cl =
      (i : ℕ) × (e : InputEvent) × (pvt : Pvt F) × (t : S) × (get_elem? events i ≡ some e)
      × (on_evdev_event fl os fuel junk bits has_hotkey self device_id events i cl e pvt t ≡ stuck)

  -- What follows an event ends if the loop does from any later index on.
  proceed_ends :
      (X : Type 0) (f : ℕ → Pvt F → Cmd (Bool × Pvt F)) (left i : ℕ) (cl : Option ℕ) (o : Handled F)
      (s : S)
      → ((j : ℕ) (p : Pvt F) (t : S) → i < j → Placed p → Ends (f j p t) X)
      → HandledOk left o
      → i + left < 2 ^ 32
      → Ends (proceed fl os fuel junk bits has_hotkey self device_id f i cl o s) X
  unfolding proceed
  proceed_ends X f left i cl (skipped p) s rest h fits = rest (suc i) p s (omega arith) h
  proceed_ends X f left i cl (consumed_events n p) s rest h fits =
      rest (suc ((i + n) % 2 ^ 32)) p s (omega (arith, h.1)) h.0
  proceed_ends X f left i none (emitted p m) s rest h fits = tt
  proceed_ends X f left i (some fd) (emitted p m) s rest h fits =
      Ends-bind (sys (λ w. write_msg os fd (input_msg bits m) w)) _ s X (λ e. absurd (ground arith))
        (λ r t _. sent r t)
    where
      sent :
          (r : Status) (t : S)
          → Ends
              ((let a : Cmd (Bool × Pvt F) = elim r [
                | success ↦ f (suc i) p
                | failure ↦ (λ u. ok (false, p) u)
              ] in
                  a)
                t)
              X
      sent success t = rest (suc i) p t (omega arith) h
      sent failure t = tt

  -- With more rounds than events left, the loop over the events of a read ends, with a result or a
  -- fault, on a device whose contacts are in bounds; or else the handling of one event does not end.
  -- The events of the read are less than 2 ^ 32.
  pub evdev_loop_ends :
      (k : ℕ) (events : List InputEvent) (cl : Option ℕ) (i : ℕ) (pvt : Pvt F) (s : S)
      → length events < 2 ^ 32
      → Placed pvt
      → length events < i + k
      → 0 < k
      → Ends
          (evdev_loop fl os fuel junk bits has_hotkey self device_id k events cl i pvt s)
          (Stalled events cl)
  unfolding evdev_loop evdev_round
  evdev_loop_ends zero events cl i pvt s fits h p a = elim a [ ]
  evdev_loop_ends (suc k) events cl i pvt s fits h p a =
      let loop : ℕ → Pvt F → Cmd (Bool × Pvt F) =
        evdev_loop fl os fuel junk bits has_hotkey self device_id k events cl in
      let Goal : Option InputEvent → Type 0 = λ o.
        Ends (evdev_round fl os fuel junk bits has_hotkey self device_id loop events cl i pvt o s)
          (Stalled events cl) in
      elim (Option-cases (get_elem? events i)) [
        | inl past ↦ subst Goal (sym past) tt
        | inr (e, at) ↦
            let inside = i-lt events i e at in
            let kept =
              event-Ok fl os fuel junk bits has_hotkey self device_id events i cl e pvt s at fits
                h in
            subst Goal (sym at) (
              Ends-bind
                (on_evdev_event fl os fuel junk bits has_hotkey self device_id events i cl e pvt) _
                s (Stalled events cl) (λ z. (i, e, pvt, s, at, z))
                (λ o t is.
                  proceed_ends (Stalled events cl) loop (length events - i) i cl o t
                    (λ j r u later placed.
                      evdev_loop_ends k events cl j r u fits placed (omega (arith, inside))
                        (omega (arith, inside)))
                    (subst (λ x. Holds x (HandledOk (length events - i))) is kept)
                    (omega (arith, inside))))
      ]
