-- ===== src/Client/Handshake.antt =====
-- client.c, recv_fd to spr16_client_sync: the client receives the shared memory, and asks for its
-- regions to be shown.
pub mod Memory
pub mod Agreement
use gtscreen.Prelude.{
  ℕ, [], zero, suc, Bool, true, false, ◌||◌, not, Option, none, some, ◌==◌, if◌then◌else◌, ok,
  stuck, M, pure, ◌>>=◌, ◌>>◌, Status, success, failure, bit_and,
}
use gtscreen.Os.{Os, World, is_eintr, is_eagain, usleep, enter, econnreset, eproto}
use gtscreen.Protocol.{
  Ack, Sync, ack_established, ack_sync_vsync, ack_recv_fd, ack_send_fd, nack_width, nack_height,
  nack_bpp, nack_shmem, nack_fd, nack_disconnect, flag_vblank, msg_sync, encode_hdr, encode_sync,
}
use gtscreen.Message.{read_msgs, write_msg, send_ack, send_nack}
use gtscreen.Message.Descriptor.{afunix_recv_fd}
use gtscreen.Client.{Program, on_world, error, change, open_shmem}

module _ {C D : Type 0} where
  -- Messages are read and dropped until there is none; EINTR does not count.
  unfoldable pub clear_messages : Os → ℕ → M (Program C D) (Unit {0})
  clear_messages os zero s = stuck
  clear_messages os (suc k) s =
      let r = read_msgs os s.socket s.msgbuf s.world in
      let t = record s { msgbuf = r.0; world = r.1 } in
      let again = clear_messages os k t in
      elim r.2 [ some _ ↦ again | none ↦ if is_eintr r.1.errno then again else ok tt t ]

  unfoldable pub refuse : Os → ℕ → M (Program C D) Status
  refuse os info = do _ ← (λ s. on_world (λ w. send_nack os s.socket info w) s); pure failure

  -- The wait for the descriptor: 4999 tries, with a pause after each.
  unfoldable pub await_fd : Os → ℕ → M (Program C D) (Option ℕ)
  unfolding refuse
  await_fd os zero s = (do _ ← refuse os nack_fd; pure none) s
  await_fd os (suc k) s =
      let r = afunix_recv_fd os s.socket s.world in
      let t = record s { world = r.0 } in
      let again = await_fd os k (record t { world = enter usleep r.0 }) in
      elim r.1 [
        | some fd ↦ ok (some fd) t
        | none ↦
            if is_eintr r.0.errno || is_eagain r.0.errno
            then again
            else (do _ ← refuse os nack_fd; pure none) t
      ]

  -- recv_fd once the descriptor is there.
  unfoldable pub accept_memory : Os → ℕ → M (Program C D) Status
  unfolding refuse open_shmem
  accept_memory os fd = do
    r ← open_shmem os fd
    elim r [
      | failure ↦ refuse os nack_shmem
      | success ↦ do
        sent ← (λ s. on_world (λ w. send_ack os s.socket ack_established w) s)
        elim sent [
          | failure ↦ pure failure
          | success ↦ do change (λ s. record s { handshaking = false }); pure success
        ]
    ]

  -- recv_fd behind the reads.
  unfoldable pub request_fd : Os → M (Program C D) Status
  unfolding accept_memory
  request_fd os = do
    sent ← (λ s. on_world (λ w. send_ack os s.socket ack_send_fd w) s)
    elim sent [
      | failure ↦ pure failure
      | success ↦ do
        got ← await_fd os 4999
        elim got [ none ↦ pure failure | some fd ↦ accept_memory os fd ]
    ]

  unfoldable pub recv_fd : Os → ℕ → M (Program C D) Status
  recv_fd os fuel = do
    clear_messages os fuel
    λ s. if is_eagain s.world.errno then request_fd os s else ok failure s

  unfoldable pub client_handle_ack : Os → ℕ → Ack → M (Program C D) Status
  client_handle_ack os fuel ack =
      if ack.info == ack_recv_fd
      then recv_fd os fuel
      else if ack.info == ack_established
      then pure success
      else if ack.info == ack_sync_vsync
      then (do change (λ s. record s { wait_vsync = false }); pure success)
      else pure failure

  -- The refusals of a registration are only reported.
  unfoldable pub client_handle_nack : Ack → M (Program C D) Status
  client_handle_nack nack =
      if nack.info == nack_disconnect
      then error econnreset
      else if (nack.info == nack_shmem)
          || (nack.info == nack_width)
          || (nack.info == nack_height)
          || (nack.info == nack_bpp)
      then pure success
      else error eproto

  unfoldable pub client_ack : Os → ℕ → Ack → M (Program C D) Status
  unfolding client_handle_nack client_handle_ack
  client_ack os fuel ack =
      if ack.ack == 0 then client_handle_nack ack else client_handle_ack os fuel ack

  -- spr16_client_sync: nothing is sent during the handshake.
  unfoldable pub client_sync : Os → Sync → ℕ → M (Program C D) Status
  client_sync os region flags s =
      let msg = encode_hdr (record { type = msg_sync; bits = flags }) (encode_sync region []) in
      let r = write_msg os s.socket msg s.world in
      let t = record s { world = r.0 } in
      let waits = not (bit_and flags flag_vblank == 0) in
      if s.handshaking then ok success s else elim r.1 [
        | failure ↦ ok failure t
        | success ↦ ok success (if waits then record t { wait_vsync = true } else t)
      ]
