-- ===== src/Client/Messages.antt =====
-- client.c, spr16_client_input_surface to spr16_dispatch_client_msgs.
pub mod Loop
use gtscreen.Prelude.{
  ℕ, zero, suc, ◌+◌, ◌-◌, ◌||◌, Option, none, some, List, ltb, ◌==◌, if◌then◌else◌, ok, stuck, M,
  pure, ◌>>=◌, ◌>>◌, Status, success, failure,
}
use gtscreen.Os.{Os, zero_errno, set_errno, eproto}
use gtscreen.Protocol.{
  Servinfo, Input, InputSurface, maxmsglen, hdr_size, msg_servinfo, msg_ack, msg_input,
  msg_input_surface, decode_hdr, decode_servinfo, decode_ack, decode_input, decode_input_surface,
}
use gtscreen.Message.{get_msghdr_typelen}
use gtscreen.Client.{Program, error, change, client_servinfo}
use gtscreen.Client.Handshake.{client_ack}

-- The functions of the program, by their pointers.
pub record Calls (C D : Type 0) : Type 0 where
  pub servinfo : C → Servinfo → M (Program C D) Status
  pub input : C → Input → M (Program C D) Status
  pub surface : C → InputSurface → M (Program C D) Status

module _ {C D : Type 0} (calls : Calls C D) where
  unfoldable pub client_input : Input → M (Program C D) Status
  client_input msg s = elim s.input_func [ none ↦ ok success s | some f ↦ calls.input f msg s ]

  -- Without a handler for surfaces a pointer would be emulated, which does nothing yet.
  unfoldable pub client_input_surface : InputSurface → M (Program C D) Status
  client_input_surface msg s = elim s.surface_func [
    | none ↦ ok success s
    | some f ↦ calls.surface f msg s
  ]

  -- The switch, for the message whose data begins at `i`.
  unfoldable pub client_handle_msg : Os → ℕ → List ℕ → ℕ → ℕ → M (Program C D) Status
  unfolding client_input client_input_surface
  client_handle_msg os fuel buf type i =
      if type == msg_servinfo
      then client_servinfo calls.servinfo (decode_servinfo buf i)
      else if type == msg_ack
      then client_ack os fuel (decode_ack buf i)
      else if type == msg_input
      then client_input (decode_input buf i)
      else if type == msg_input_surface
      then client_input_surface (decode_input_surface buf i)
      else error eproto

  unfoldable pub client_round :
      Os → ℕ → List ℕ → ℕ → ℕ → M (Program C D) Status → M (Program C D) Status
  client_round os fuel buf len pos rest =
      let typelen = get_msghdr_typelen (decode_hdr buf pos).type in
      if ltb (pos + hdr_size) len
      then (if ltb (maxmsglen - hdr_size) typelen || ltb len (pos + hdr_size + typelen)
          then error eproto
          else (do
            r ← client_handle_msg os fuel buf (decode_hdr buf pos).type (pos + hdr_size)
            elim r [ failure ↦ pure failure | success ↦ rest ]))
      else pure success

  -- The loop over the buffer, with one round more than bytes.
  unfoldable pub client_dispatch : Os → ℕ → List ℕ → ℕ → ℕ → ℕ → M (Program C D) Status
  client_dispatch os fuel buf len zero pos s = stuck
  client_dispatch os fuel buf len (suc k) pos s =
      let typelen = get_msghdr_typelen (decode_hdr buf pos).type in
      let rest = client_dispatch os fuel buf len k (pos + (hdr_size + typelen)) in
      client_round os fuel buf len pos rest s

  unfoldable pub dispatch_client_msgs : Os → ℕ → List ℕ → ℕ → M (Program C D) Status
  dispatch_client_msgs os fuel buf len = do
    change (λ s. record s { world = set_errno zero_errno (s.world) })
    client_dispatch os fuel buf len (len + 1) 0
