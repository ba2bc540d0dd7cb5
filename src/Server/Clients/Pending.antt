-- ===== src/Server/Clients/Pending.antt =====
-- The error path of server_addclient, and the repeated servinfo.
use gtscreen.Prelude.{
  ℕ, zero, suc, ◌≤◌, ◌≡◌, refl, ap, inl, inr, true, none, some, List, ◌∷◌, arith, Returns, failure,
  fault, stuck, Option-cases,
}
use gtscreen.Os.{Os, Log, failed, eagain, is_eagain}
use gtscreen.Fdpoll.{add, max_fdpoll_handler}
use gtscreen.Message.{write_msg}
use gtscreen.Message.Write.{write_msg_full}
use gtscreen.Server.State.{Client, S, find_client}
use gtscreen.Server.Clients.{
  add_pending, add_failed, cb_data_add, cb_data_remove, servinfo, servinfo_msg,
}

-- When the handler table is full, a new client is refused after it was put on the pending list: it
-- is freed there, and every later search of the pending list reads the freed client.
pub add_pending_dangles :
    (os : Os) (p fd : ℕ) (c : Client) (s : S) (fd' : ℕ)
    → s.rest.clients p ≡ some c
    → max_fdpoll_handler ≤ s.handler.count
    → Returns (add_pending os p fd s) (λ r t.
      (r ≡ failure)
      × (t.rest.pending ≡ p ∷ s.rest.pending)
      × (t.rest.clients p ≡ none)
      × (find_client t.rest.pending fd' t ≡ fault))
unfolding add_pending add_failed cb_data_add cb_data_remove find_client add
add_pending_dangles os p fd c s fd' e full = elim (Option-cases (os.malloc s.world.log)) [
  | inl m ↦ ground (arith)
  | inr (a, m) ↦ ground (arith)
]

-- While the socket of a new client takes no bytes, the server does nothing else: the loop around
-- `write` has no end.
pub servinfo_spins :
    (os : Os) (k fd : ℕ) (s : S)
    → ((log : Log) (msg : List ℕ) → os.write log fd msg ≡ failed eagain)
    → servinfo os k fd s ≡ stuck
unfolding servinfo
servinfo_spins os zero fd s full = refl
servinfo_spins os (suc k) fd s full =
    let w = write_msg_full os fd (servinfo_msg s.rest.fb) s.world full in
    let fails : (write_msg os fd (servinfo_msg s.rest.fb) s.world).1 ≡ failure = ap (λ r. r.1) w in
    let again : is_eagain (write_msg os fd (servinfo_msg s.rest.fb) s.world).0.errno ≡ true =
      ap (λ r. is_eagain r.0.errno) w in
    rw (servinfo, fails, again) (servinfo_spins os k fd _ full)
