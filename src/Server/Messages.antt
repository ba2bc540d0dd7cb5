-- ===== src/Server/Messages.antt =====
-- server.c, client_handshake to handle_nack and spr16_dispatch_server_msgs: what the server does with
-- the messages of a client.
pub mod Loop
pub mod Handshake
pub mod Whole
use gtscreen.Prelude.{
  ℕ, zero, suc, ◌+◌, ◌-◌, Bool, true, false, ◌||◌, ◌&&◌, not, Option, none, some, List, [], ◌∷◌,
  ◌++◌, ltb, leb, ◌==◌, if◌then◌else◌, pure, ◌>>=◌, ◌>>◌, Run, ok, fault, stuck, Status, success,
  failure,
}
use gtscreen.Os.{Os, World, eproto, zero_errno, set_errno}
use gtscreen.Protocol.{
  Ack, ack_established, ack_send_fd, maxmsglen, hdr_size, msg_servinfo, msg_register_sprite,
  msg_ack, msg_sync, decode_hdr, decode_register, decode_ack, decode_sync, get16,
}
use gtscreen.Message.{get_msghdr_typelen, afunix_send_fd}
use gtscreen.Server.State.{Client, Server, S, Cmd, get, modify, sys, load, store, fail_with}
use gtscreen.Server.Clients.{connect_client, servinfo, is_failure}
use gtscreen.Server.Sprite.{register_sprite}
use gtscreen.Server.Sync.{server_sync}

unfoldable pub client_handshake : Os → ℕ → Cmd Status
client_handshake os p = do c ← load p; if c.handshaking then connect_client os p else pure failure

-- SPRITEACK_SEND_FD: the descriptor of the shared memory, once.
unfoldable pub send_memory : Os → ℕ → Cmd Status
send_memory os p = do
  c ← load p
  if not c.recv_fd_wait then pure failure else elim c.shmem_fd [
    | none ↦ pure failure
    | some fd ↦ if fd == 0 then pure failure else (do
      r ← sys (λ w. afunix_send_fd os c.socket fd w)
      if is_failure r
          then pure failure
          else (do store p (record c { recv_fd_wait = false }); pure success))
  ]

unfoldable pub handle_ack : Os → ℕ → Ack → Cmd Status
unfolding client_handshake send_memory
handle_ack os p ack =
    if ack.info == ack_established
    then client_handshake os p
    else if ack.info == ack_send_fd
    then send_memory os p
    else pure failure

-- Every NACK ends the connection.
unfoldable pub handle_nack : ℕ → Ack → Cmd Status
handle_nack p ack = pure failure

unfoldable pub server_ack : Os → ℕ → Ack → Cmd Status
unfolding handle_ack handle_nack
server_ack os p ack = if ack.ack == 0 then handle_nack p ack else handle_ack os p ack

-- The switch of spr16_dispatch_server_msgs, for the message whose data begins at `i`.
unfoldable pub handle_msg : Os → ℕ → ℕ → List ℕ → ℕ → ℕ → ℕ → Cmd Status
unfolding server_ack
handle_msg os fuel p buf type bits i = do
  c ← load p
  if type == msg_servinfo
      then servinfo os fuel c.socket
      else (if type == msg_register_sprite
          then register_sprite os c.socket (decode_register buf i)
          else (if type == msg_sync
              then server_sync p bits (decode_sync buf i)
              else (if type == msg_ack
                  then server_ack os p (decode_ack buf i)
                  else fail_with eproto)))

-- One round of the loop over the buffer: the message at `pos`, then the rest of the loop.
unfoldable pub dispatch_round : Os → ℕ → ℕ → List ℕ → ℕ → ℕ → Cmd Status → Cmd Status
dispatch_round os fuel p buf len pos rest =
    let hdr = decode_hdr buf pos in
    let typelen = get_msghdr_typelen hdr.type in
    if ltb (pos + hdr_size) len
    then (if ltb (maxmsglen - hdr_size) typelen || ltb len (pos + hdr_size + typelen)
        then fail_with eproto
        else (do
          r ← handle_msg os fuel p buf hdr.type hdr.bits (pos + hdr_size)
          elim r [ failure ↦ pure failure | success ↦ rest ]))
    else pure success

-- A message is at least 8 bytes, so `len` rounds are enough.
unfoldable pub dispatch_from : Os → ℕ → ℕ → List ℕ → ℕ → ℕ → ℕ → Cmd Status
dispatch_from os fuel p buf len zero pos s = stuck
dispatch_from os fuel p buf len (suc k) pos s =
    let typelen = get_msghdr_typelen (decode_hdr buf pos).type in
    let rest = dispatch_from os fuel p buf len k (pos + (hdr_size + typelen)) in
    dispatch_round os fuel p buf len pos rest s

unfoldable pub dispatch_msgs : Os → ℕ → ℕ → List ℕ → ℕ → Cmd Status
dispatch_msgs os fuel p buf len = do
  _ ← sys (λ w. (set_errno zero_errno w, tt))
  dispatch_from os fuel p buf len (len + 1) 0
