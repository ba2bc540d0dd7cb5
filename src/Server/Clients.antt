-- ===== src/Server/Clients.antt =====
-- server.c, server_remove_pending to server_addclient: how a client comes, connects and goes.
pub mod Freeing
pub mod Pending
pub mod Search
use gtscreen.Prelude.{
  ℕ, zero, suc, ◌+◌, Bool, true, false, ◌||◌, ◌&&◌, not, Option, none, some, List, [], ◌∷◌, ◌++◌,
  ltb, leb, ◌==◌, if◌then◌else◌, length, has, erase, pure, ◌>>=◌, ◌>>◌, Run, ok, fault, stuck,
  Status, success, failure, ℤ, pos,
}
use gtscreen.Os.{Os, World, zero_errno, eexist, esrch, is_eagain, close, free, set_errno, Errno}
use gtscreen.Protocol.{MsgHdr, Servinfo, msg_servinfo, nack_disconnect, encode_hdr, encode_servinfo}
use gtscreen.Fdpoll.{add, remove, max_fdpoll_handler}
use gtscreen.Message.{write_msg, send_nack}
use gtscreen.Server.State.{
  Client, Server, Screen, CbData, Framebuffer, Callback, Func, client_func, S, Cmd, get, modify,
  sys, call, poller, load, store, release, zeroed, allocate, find_client, fail_with,
}
use gtscreen.Server.Sync.{sync_fullscreen}
use gtscreen.Server.Devices.{input_flush_all_devices}

-- EPOLLIN
abbrev pub fdpollin : ℕ
fdpollin = 1

abbrev pub is_failure : Status → Bool
is_failure success = false
is_failure failure = true

unfoldable pub remove_pending : ℕ → Cmd (Option ℕ)
unfolding find_client
remove_pending fd = do
  ps ← get (λ r. r.pending)
  found ← find_client ps fd
  elim found [
    | none ↦ pure none
    | some p ↦ do modify (λ r. record r { pending = erase p ps }); pure (some p)
  ]

unfoldable pub find_on_screens : List Screen → ℕ → Cmd (Option ℕ)
unfolding find_client
find_on_screens [] fd = pure none
find_on_screens (scrn ∷ scrns) fd = do
  found ← find_client scrn.clients fd
  elim found [ none ↦ find_on_screens scrns fd | some p ↦ pure (some p) ]

unfoldable pub getclient : ℕ → Cmd (Option ℕ)
unfolding find_on_screens find_client
getclient fd = do
  scrns ← get (λ r. r.main_screen)
  found ← find_on_screens scrns fd
  ps ← get (λ r. r.pending)
  elim found [ none ↦ find_client ps fd | some p ↦ pure (some p) ]

-- server_free_client, with in_free_list as `has`; every branch reads the client's socket. The client
-- itself is freed later.
unfoldable pub free_client : Os → ℕ → Cmd Status
free_client os p = do
  frees ← get (λ r. r.free_list)
  c ← load p
  if not (ltb (length frees) max_fdpoll_handler) || has p frees then pure failure else (do
    r ← poller (λ h w. remove os h c.socket w)
    if is_failure r
        then pure failure
        else (do modify (λ s. record s { free_list = frees ++ p ∷ [] }); pure success))

abbrev head_client : List Screen → ℕ
head_client [] = 0
head_client (scrn ∷ _) = elim scrn.clients [ [] ↦ 0 | p ∷ _ ↦ p ]

-- The loop of server_remove_client: `before` are the screens already passed.
remove_on_screens : Os → ℕ → ℕ → List Screen → List Screen → Cmd (Option Status)
remove_on_screens os fuel fd before [] = pure none
remove_on_screens os fuel fd before (scrn ∷ scrns) = do
  let main = before ++ scrn ∷ scrns
  let flush = (do _ ← input_flush_all_devices os fuel; pure tt)
  if head_client (scrn ∷ []) == head_client main then flush else pure tt
  found ← find_client scrn.clients fd
  elim found [
    | none ↦ remove_on_screens os fuel fd (before ++ scrn ∷ []) scrns
    | some p ↦ do
      let scrn' = record scrn { clients = erase p scrn.clients }
      modify (λ r. record r { main_screen = before ++ scrn' ∷ scrns })
      _ ← sys (λ w. send_nack os fd nack_disconnect w)
      r ← free_client os p
      if is_failure r then pure (some failure) else (do
        modify (λ s. record s { main_screen = before ++ scrns })
        call (free scrn.addr)
        sync_fullscreen
        pure (some success))
  ]

-- A pending client counts as removed also when its handler could not be.
remove_pending_client : Os → ℕ → Cmd Status
unfolding remove_pending free_client
remove_pending_client os fd = do
  found ← remove_pending fd
  elim found [ none ↦ fail_with esrch | some p ↦ do _ ← free_client os p; pure success ]

unfoldable pub remove_client : Os → ℕ → ℕ → Cmd Status
unfolding remove_on_screens remove_pending_client
remove_client os fuel fd = do
  _ ← sys (λ w. (set_errno zero_errno w, tt))
  scrns ← get (λ r. r.main_screen)
  done ← remove_on_screens os fuel fd [] scrns
  elim done [ some r ↦ pure r | none ↦ remove_pending_client os fd ]

-- A new screen at the end of the list holds the client, which leaves the pending list.
unfoldable pub connect_client : Os → ℕ → Cmd Status
unfolding remove_pending
connect_client os p = do
  scrn ← allocate os
  elim scrn [
    | none ↦ pure failure
    | some a ↦ do
      c ← load p
      found ← remove_pending c.socket
      elim found [
        | none ↦ do call (free a); pure failure
        | some _ ↦ do
          modify (λ r. record r {
            main_screen = r.main_screen ++ record { addr = a; clients = p ∷ [] } ∷ [];
          })
          store p (record c { connected = true; handshaking = false })
          pure success
      ]
  ]

abbrev servinfo_msg : Framebuffer → List ℕ
servinfo_msg fb =
    encode_hdr (record { type = msg_servinfo; bits = 0 })
      (encode_servinfo (record { width = fb.width; height = fb.height; bpp = fb.bpp }) [])

-- The message again while the socket's buffer is full: `goto again`.
unfoldable pub servinfo : Os → ℕ → ℕ → Cmd Status
servinfo os zero fd s = stuck
servinfo os (suc k) fd s =
    let r = write_msg os fd (servinfo_msg s.rest.fb) s.world in
    let t = record s { world = r.0 } in
    let again = servinfo os k fd t in
    elim r.1 [
      | success ↦ ok success t
      | failure ↦ if is_eagain r.0.errno then again else ok failure t
    ]

unfoldable pub cb_data_add : Os → ℕ → Cmd (Option ℕ)
cb_data_add os p = do
  node ← allocate os
  elim node [
    | none ↦ pure none
    | some a ↦ do
      modify (λ r. record r { cb_data = record { addr = a; cl = p } ∷ r.cb_data })
      pure (some a)
  ]

-- The entry for a client, taken out of the list, with the address to free.
unfoldable pub unlink_cb : List CbData → ℕ → Option (ℕ × List CbData)
unlink_cb [] p = none
unlink_cb (d ∷ ds) p =
    if d.cl == p
    then some (d.addr, ds)
    else elim (unlink_cb ds p) [ none ↦ none | some (a, ds') ↦ some (a, d ∷ ds') ]

unfoldable pub cb_data_remove : ℕ → Cmd Status
unfolding unlink_cb
cb_data_remove p = do
  ds ← get (λ r. r.cb_data)
  if p == 0 then pure failure else elim (unlink_cb ds p) [
    | none ↦ pure failure
    | some (a, ds') ↦ do modify (λ r. record r { cb_data = ds' }); call (free a); pure success
  ]

-- The label `err` of server_addclient: the client is freed, and stays in the pending list if it is
-- there already.
pub add_failed : ℕ → Cmd Status
add_failed p = do c ← load p; call (close c.socket); call (free p); release p; pure failure

-- server_addclient once the client knows the server: it is pending, and gets its callback.
pub add_pending : Os → ℕ → ℕ → Cmd Status
unfolding add_failed cb_data_add cb_data_remove
add_pending os p fd = do
  c ← load p
  store p (record c { connected = false; socket = fd })
  modify (λ r. record r { pending = p ∷ r.pending })
  data' ← cb_data_add os p
  elim data' [
    | none ↦ add_failed p
    | some d ↦ do
      r ← poller (λ h w.
          add os h (pos fd) fdpollin (some (record { func = client_func; user_data = d })) w)
      if is_failure r then (do _ ← cb_data_remove p; add_failed p) else pure success
  ]

unfoldable pub addclient : Os → ℕ → ℕ → Cmd Status
unfolding add_failed add_pending getclient servinfo
addclient os fuel fd = do
  _ ← sys (λ w. (set_errno zero_errno w, tt))
  known ← getclient fd
  elim known [
    | some _ ↦ fail_with eexist
    | none ↦ do
      node ← allocate os
      elim node [
        | none ↦ pure failure
        | some p ↦ do
          store p (record zeroed { shmem_fd = none })
          r ← servinfo os fuel fd
          if is_failure r then add_failed p else add_pending os p fd
      ]
  ]
