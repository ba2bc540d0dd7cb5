-- ===== src/Server/Callbacks.antt =====
-- server.c, listener_callback and client_callback, and the call of a function pointer of the poll
-- handler's table.
use gtscreen.Prelude.{
  ℕ, ◌||◌, none, some, List, [], ◌∷◌, ◌==◌, if◌then◌else◌, pure, ◌>>=◌, ◌>>◌, ok, fault,
}
use gtscreen.Os.{Os, done, failed, close, accept, enter}
use gtscreen.Fdpoll.Poll.{Code, code_ok, code_remove, is_set, hup_err}
use gtscreen.Message.{read_msgs}
use gtscreen.Server.State.{
  CbData, Callback, listener_func, client_func, drm_func, evdev_func, ascii_func, raw_func, Cmd,
  get, sys, call,
}
use gtscreen.Server.Clients.{addclient, remove_client, cb_data_remove, is_failure, fdpollin}
use gtscreen.Server.Sprite.{answer}
use gtscreen.Server.Messages.{dispatch_msgs}
use gtscreen.Fb.Vblank.{drm_fd_callback}
use gtscreen.Input.Callbacks.{Senses, evdev_callback, ascii_callback, raw_callback}

unfoldable pub accept_client : Os → ℕ → ℕ → Cmd Code
accept_client os fuel fd = do
  accepted ← sys (λ w. (answer (enter (accept fd) w) (os.accept w.log fd), os.accept w.log fd))
  elim accepted [
    | failed _ ↦ pure code_ok
    | done newsock ↦ do
      r ← addclient os fuel newsock
      if is_failure r then (do call (close newsock); pure code_ok) else pure code_ok
  ]

unfoldable pub listener_callback : Os → ℕ → ℕ → ℕ → Cmd Code
unfolding accept_client
listener_callback os fuel fd flags =
    if is_set flags hup_err
    then pure code_remove
    else if is_set flags fdpollin
    then accept_client os fuel fd
    else pure code_ok

-- The end of client_callback for a client that goes.
unfoldable pub drop_client : Os → ℕ → ℕ → ℕ → Cmd Code
drop_client os fuel fd p = do
  r ← remove_client os fuel fd
  _ ← cb_data_remove p
  if is_failure r then pure code_remove else pure code_ok

-- The entry of the callback data at an address; a freed one is a fault.
unfoldable pub cb_at : List CbData → ℕ → Cmd CbData
cb_at [] a s = fault
cb_at (d ∷ ds) a s = if d.addr == a then ok d s else cb_at ds a s

-- What was read is dispatched; a client with a bad message goes.
unfoldable pub serve_client : Os → ℕ → ℕ → ℕ → Cmd Code
serve_client os fuel fd p = do
  buf ← get (λ r. r.msgbuf)
  filled_buf ← (λ s.
      let r = read_msgs os fd buf s.world in
      ok r.2 (record s { world = r.1; rest = record (s.rest) { msgbuf = r.0 } }))
  buf' ← get (λ r. r.msgbuf)
  elim filled_buf [
    | none ↦ drop_client os fuel fd p
    | some len ↦ do
      r ← dispatch_msgs os fuel p buf' len
      if is_failure r then drop_client os fuel fd p else pure code_ok
  ]

unfoldable pub client_callback : Os → ℕ → ℕ → ℕ → ℕ → Cmd Code
unfolding drop_client cb_at serve_client
client_callback os fuel fd flags user_data = do
  ds ← get (λ r. r.cb_data)
  dat ← cb_at ds user_data
  if (dat.cl == 0) || is_set flags hup_err
      then drop_client os fuel fd dat.cl
      else serve_client os fuel fd dat.cl

-- The function pointer of a node, called by the poll handler.
unfoldable pub run_callback : Os → ℕ → Senses → Callback → ℕ → ℕ → Cmd Code
run_callback os fuel on cb fd flags = elim cb.func [
  | listener_func ↦ listener_callback os fuel fd flags
  | client_func ↦ client_callback os fuel fd flags cb.user_data
  | drm_func ↦ drm_fd_callback os fuel fd flags
  | evdev_func ↦ evdev_callback os fuel on fd cb.user_data
  | ascii_func ↦ ascii_callback os fuel on fd cb.user_data
  | raw_func ↦ raw_callback os fuel on cb.user_data
]
