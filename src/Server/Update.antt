-- ===== src/Server/Update.antt =====
-- server.c, server_free_list to spr16_server_shutdown: one round of the server's main loop, and its
-- end.
pub mod Slots
pub mod Free
use gtscreen.Prelude.{
  ℕ, false, Option, none, some, List, [], ◌∷◌, ◌==◌, if◌then◌else◌, pure, ◌>>=◌, ◌>>◌, Status,
  success, failure,
}
use gtscreen.Os.{Os, done, failed, close, free, munmap, enter}
use gtscreen.Protocol.{nack_disconnect}
use gtscreen.Fdpoll.Poll.{poll}
use gtscreen.Message.{send_nack}
use gtscreen.Server.State.{Screen, Cmd, get, modify, sys, call, load, store, release}
use gtscreen.Server.Clients.{free_client, is_failure}
use gtscreen.Server.Sprite.{answer}
use gtscreen.Fb.{fb_sync_client}
use gtscreen.Input.Callbacks.{Senses}
use gtscreen.Server.Callbacks.{run_callback}

-- The memory of one client on the free list, then the client. (`close(-1)` does nothing.)
unfoldable pub free_one : Os → ℕ → Cmd Status
free_one os p = do
  c ← load p
  call (close c.socket)
  r ← if c.shmem_size == 0 then pure success else (do
    elim c.shmem_fd [ none ↦ pure tt | some fd ↦ call (close fd) ]
    unmapped ← sys (λ w. (
      answer (enter (munmap c.shmem_addr c.shmem_size) w)
          (os.munmap w.log c.shmem_addr c.shmem_size),
      os.munmap w.log c.shmem_addr c.shmem_size,
    ))
    elim unmapped [ done _ ↦ pure success | failed _ ↦ pure failure ])
  call (free p)
  release p
  pure r

unfoldable pub free_each : Os → List ℕ → Cmd Status
unfolding free_one
free_each os [] = pure success
free_each os (p ∷ ps) = do
  r ← free_one os p
  r' ← free_each os ps
  elim r [ success ↦ pure r' | failure ↦ pure failure ]

unfoldable pub free_all : Os → Cmd Status
unfolding free_each
free_all os = do
  ps ← get (λ r. r.free_list)
  r ← free_each os ps
  modify (λ s. record s { free_list = [] })
  pure r

-- The clients of the array up to the first empty slot, and the array with those slots emptied.
unfoldable pub filled : List (Option ℕ) → List ℕ
filled [] = []
filled (none ∷ slots) = []
filled (some p ∷ slots) = p ∷ filled slots

unfoldable pub emptied : List (Option ℕ) → List (Option ℕ)
emptied [] = []
emptied (none ∷ slots) = none ∷ slots
emptied (some p ∷ slots) = none ∷ emptied slots

-- One client of the array: its `syncing` is cleared whether or not it could be synchronised.
unfoldable pub sync_one : Os → ℕ → Cmd (Unit {0})
sync_one os p = do _ ← fb_sync_client os p; c ← load p; store p (record c { syncing = false })

unfoldable pub sync_each : Os → List ℕ → Cmd (Unit {0})
unfolding sync_one
sync_each os [] = pure tt
sync_each os (p ∷ ps) = do sync_one os p; sync_each os ps

unfoldable pub sync_waiting : Os → Cmd (Unit {0})
unfolding sync_each filled emptied
sync_waiting os = do
  slots ← get (λ r. r.sync_clients)
  sync_each os (filled slots)
  modify (λ r. record r { sync_clients = emptied slots })

-- One round: the events, then the waiting clients, then the clients to be freed.
unfoldable pub server_update : Os → ℕ → Senses → Cmd Status
server_update os fuel on = do
  r ← poll (run_callback os fuel on) os
  if is_failure r then pure failure else (do sync_waiting os; free_all os)

unfoldable pub disconnect_all : Os → List ℕ → Cmd (Unit {0})
disconnect_all os [] = pure tt
disconnect_all os (p ∷ ps) = do
  c ← load p
  _ ← sys (λ w. send_nack os c.socket nack_disconnect w)
  _ ← free_client os p
  disconnect_all os ps

unfoldable pub close_screens : Os → List Screen → Cmd (Unit {0})
unfolding disconnect_all
close_screens os [] = pure tt
close_screens os (scrn ∷ scrns) = do
  disconnect_all os scrn.clients
  call (free scrn.addr)
  close_screens os scrns

-- spr16_server_shutdown, with the address of the context. Pending clients are left.
unfoldable pub server_shutdown : Os → ℕ → Cmd Status
unfolding close_screens
server_shutdown os self = do
  scrns ← get (λ r. r.main_screen)
  close_screens os scrns
  modify (λ r. record r { main_screen = [] })
  _ ← free_all os
  fd ← get (λ r. r.listen_fd)
  call (close fd)
  call (free self)
  pure success
