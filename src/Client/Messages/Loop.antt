-- ===== src/Client/Messages/Loop.antt =====
-- The rounds of the loop of spr16_dispatch_client_msgs.
use gtscreen.Prelude.{
  ℕ, zero, suc, ◌+◌, ◌-◌, ◌<◌, ◌≡◌, ◌||◌, List, arith, Status, success, failure, ltb, M, Ends,
  Ends-bind, if-Ends, stuck, ok,
}
use gtscreen.Os.{Os}
use gtscreen.Protocol.{decode_hdr}
use gtscreen.Message.{get_msghdr_typelen}
use gtscreen.Client.{Program}
use gtscreen.Client.Messages.{Calls, client_dispatch, client_round, client_handle_msg}

module _ {C D : Type 0} (calls : Calls C D) (os : Os) (fuel : ℕ) (buf : List ℕ) (len : ℕ) where
  -- The handling of a message that stands in the buffer does not end, in some state.
  abbrev pub Stalled : Type 0
  Stalled =
      (pos : ℕ) × (t : Program C D) × (pos + 4 < len)
      × (client_handle_msg calls os fuel buf (decode_hdr buf pos).type (pos + 4) t ≡ stuck)

  client_round_ends :
      (pos : ℕ) (rest : M (Program C D) Status) (s : Program C D)
      → (pos + 4 < len → (t : Program C D) → Ends (rest t) Stalled)
      → Ends (client_round calls os fuel buf len pos rest s) Stalled
  unfolding client_round
  client_round_ends pos rest s next =
      let hdr = decode_hdr buf pos in
      if-Ends Stalled (ltb (pos + 4) len) _ _ s
        (λ more.
          if-Ends Stalled
            (ltb (64 - 4) (get_msghdr_typelen hdr.type)
              || ltb len (pos + 4 + get_msghdr_typelen hdr.type))
            _ _ s (λ _. tt)
            (λ _.
              Ends-bind (client_handle_msg calls os fuel buf hdr.type (pos + 4)) _ s Stalled
                (λ e. (pos, s, ground arith, e)) (λ r t _. after (ground arith) r t)))
        (λ _. tt)
    where
      after :
          pos + 4 < len
          → (r : Status) (t : Program C D)
          → Ends
              ((let a : M (Program C D) Status = elim r [
                | failure ↦ (λ u. ok failure u)
                | success ↦ rest
              ] in
                  a)
                t)
              Stalled
      after more failure t = tt
      after more success t = next more t

  -- With more rounds than bytes to go the loop over the messages ends, with a result or a fault,
  -- whatever the server sent; or else the handling of one of the messages does not end.
  pub client_dispatch_ends :
      (j pos : ℕ) (s : Program C D)
      → len < pos + j
      → 0 < j
      → Ends (client_dispatch calls os fuel buf len j pos s) Stalled
  unfolding client_dispatch
  client_dispatch_ends zero pos s h y = absurd (omega arith)
  client_dispatch_ends (suc j) pos s h y =
      let next = pos + (4 + get_msghdr_typelen (decode_hdr buf pos).type) in
      client_round_ends pos (client_dispatch calls os fuel buf len j next) s
        (λ more t. client_dispatch_ends j next t (omega arith) (omega arith))
