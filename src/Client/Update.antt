-- ===== src/Client/Update.antt =====
-- client.c, spr16_client_update and spr16_client_handshake_wait.
use gtscreen.Prelude.{
  ℕ, zero, suc, none, some, List, [], ◌∷◌, ltb, ◌==◌, if◌then◌else◌, ok, stuck, M, pure, ◌>>=◌,
  Status, success, failure, Bool, true, false,
}
use gtscreen.Os.{
  Os, Event, Errno, ebadf, done, failed, is_eintr, zero_errno, set_errno, enter, epoll_wait,
}
use gtscreen.Message.{read_msgs}
use gtscreen.Client.{Program, error}
use gtscreen.Client.Messages.{Calls, dispatch_client_msgs}

abbrev is_ebadf : Errno → Bool
is_ebadf ebadf = true
is_ebadf _ = false

module _ {C D : Type 0} (calls : Calls C D) where
  -- One event: what the socket has is read and dispatched.
  unfoldable pub on_event : Os → ℕ → Event → M (Program C D) Status
  on_event os fuel e s =
      let r = read_msgs os s.socket s.msgbuf s.world in
      let t = record s { msgbuf = r.0; world = r.1 } in
      if e.ptr == s.socket
      then elim r.2 [
        | none ↦ ok failure t
        | some len ↦ dispatch_client_msgs calls os fuel r.0 len t
      ]
      else error ebadf s

  unfoldable pub on_events : Os → ℕ → List Event → M (Program C D) Status
  on_events os fuel [] = pure success
  on_events os fuel (e ∷ es) = do
    r ← on_event os fuel e
    elim r [ failure ↦ pure failure | success ↦ on_events os fuel es ]

  -- `epoll_wait` again after EINTR.
  unfoldable pub client_update : Os → ℕ → M (Program C D) Status
  unfolding on_events
  client_update os zero s = stuck
  client_update os (suc k) s =
      let w = set_errno zero_errno s.world in
      let v = enter (epoll_wait s.epoll_fd) w in
      let again = client_update os k (record s { world = set_errno zero_errno v }) in
      elim (os.epoll_wait w.log s.epoll_fd) [
        | done events ↦ on_events os k events (record s { world = v })
        | failed e ↦ if is_eintr e then again else ok failure (record s { world = set_errno e v })
      ]

  -- The rounds of the wait, `k` more after this one.
  unfoldable pub wait_rounds : Os → ℕ → ℕ → M (Program C D) Status
  wait_rounds os fuel zero = do
    r ← client_update os fuel
    λ s. if s.handshaking then ok failure s else elim r [
      | success ↦ ok success s
      | failure ↦ if is_ebadf s.world.errno then ok success s else ok failure s
    ]
  wait_rounds os fuel (suc k) = do
    r ← client_update os fuel
    λ s.
        let next = if s.handshaking then wait_rounds os fuel k s else ok success s in
        elim r [ success ↦ next | failure ↦ if is_ebadf s.world.errno then next else ok failure s ]

  abbrev pub wait_limit : ℕ → ℕ
  wait_limit timeout = if ltb timeout 500 then 500 else timeout

  unfoldable pub handshake_wait : Os → ℕ → ℕ → M (Program C D) Status
  handshake_wait os fuel timeout = wait_rounds os fuel (wait_limit timeout)
