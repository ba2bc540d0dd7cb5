-- ===== src/Server/Messages/Loop.antt =====
-- The rounds of the loop of spr16_dispatch_server_msgs.
use gtscreen.Prelude.{
  ℕ, zero, suc, ◌+◌, ◌-◌, ◌<◌, ◌≡◌, ◌||◌, List, arith, Status, success, failure, ltb, Ends,
  Ends-bind, if-Ends, stuck, ok,
}
use gtscreen.Os.{Os}
use gtscreen.Protocol.{decode_hdr}
use gtscreen.Message.{get_msghdr_typelen}
use gtscreen.Server.State.{Cmd, S}
use gtscreen.Server.Messages.{dispatch_from, dispatch_round, handle_msg}

module _ (os : Os) (fuel p : ℕ) (buf : List ℕ) (len : ℕ) where
  -- The handler of a message that stands in the buffer does not end, in some state.
  abbrev pub Stalled : Type 0
  Stalled =
      (pos : ℕ) × (t : S) × (pos + 4 < len)
      × (handle_msg os fuel p buf (decode_hdr buf pos).type (decode_hdr buf pos).bits (pos + 4) t
          ≡ stuck)

  -- A round ends if the rest of the loop, from behind the message on, does.
  dispatch_round_ends :
      (pos : ℕ) (rest : Cmd Status) (s : S)
      → (pos + 4 < len → (t : S) → Ends (rest t) Stalled)
      → Ends (dispatch_round os fuel p buf len pos rest s) Stalled
  unfolding dispatch_round
  dispatch_round_ends pos rest s next =
      let hdr = decode_hdr buf pos in
      if-Ends Stalled (ltb (pos + 4) len) _ _ s
        (λ more.
          if-Ends Stalled
            (ltb (64 - 4) (get_msghdr_typelen hdr.type)
              || ltb len (pos + 4 + get_msghdr_typelen hdr.type))
            _ _ s (λ _. tt)
            (λ _.
              Ends-bind (handle_msg os fuel p buf hdr.type hdr.bits (pos + 4)) _ s Stalled
                (λ e. (pos, s, ground arith, e)) (λ r t _. after (ground arith) r t)))
        (λ _. tt)
    where
      after :
          pos + 4 < len
          → (r : Status) (t : S)
          → Ends
              ((let a : Cmd Status = elim r [ failure ↦ (λ u. ok failure u) | success ↦ rest ] in a)
                t)
              Stalled
      after more failure t = tt
      after more success t = next more t

  -- With more rounds than bytes to go the loop over the messages ends, with a result or a fault,
  -- whatever was received; or else the handler of one of the messages does not end.
  pub dispatch_from_ends :
      (j pos : ℕ) (s : S)
      → len < pos + j
      → 0 < j
      → Ends (dispatch_from os fuel p buf len j pos s) Stalled
  unfolding dispatch_from
  dispatch_from_ends zero pos s h y = absurd (omega arith)
  dispatch_from_ends (suc j) pos s h y =
      let next = pos + (4 + get_msghdr_typelen (decode_hdr buf pos).type) in
      dispatch_round_ends pos (dispatch_from os fuel p buf len j next) s
        (λ more t. dispatch_from_ends j next t (omega arith) (omega arith))
