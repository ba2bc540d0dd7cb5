-- ===== src/Server/Messages/Handshake.antt =====
-- client_handshake and server_connect_client: the last step of the handshake.
use gtscreen.Prelude.{
  ℕ, ◌≡◌, refl, ◌⊎◌, inl, inr, true, false, Option, none, some, List, [], ◌∷◌, ◌++◌, arith, erase,
  Returns, success, failure, ok, Option-cases, Bool-cases, ◌==◌, ◌>>=◌,
}
use gtscreen.Os.{Os, World, malloc, enter}
use gtscreen.Server.State.{Client, S, find_client, update_same}
use gtscreen.Server.Clients.{connect_client, remove_pending}
use gtscreen.Server.Messages.{client_handshake}

-- The search reads the clients only.
find_client_world :
    (ps : List ℕ) (fd : ℕ) (o : Option ℕ) (s : S) (w : World)
    → find_client ps fd s ≡ ok o s
    → find_client ps fd (record s { world = w }) ≡ ok o (record s { world = w })
unfolding find_client
find_client_world [] fd o s w h = ground arith
find_client_world (p ∷ ps) fd o s w h = elim (Option-cases (s.rest.clients p)) [
  | inl n ↦ ground (arith)
  | inr (c, e) ↦ elim (Bool-cases (c.socket == fd)) [
    | inl t ↦
        let k = rw (find_client, ◌>>=◌, e, t) at h in rw (find_client, ◌>>=◌, e, t) (ground arith)
    | inr f ↦
        let k = rw (find_client, ◌>>=◌, e, f) at h in
        rw (find_client, ◌>>=◌, e, f) (find_client_world ps fd o s w k)
  ]
]

-- The client has a screen of its own at `a`, the last one, and is no longer pending.
abbrev pub Joined : ℕ → ℕ → S → S → Type 0
Joined a p s t =
    (t.rest.main_screen ≡ s.rest.main_screen ++ record { addr = a; clients = p ∷ [] } ∷ [])
    × (t.rest.pending ≡ erase p s.rest.pending)
    × ((d : Client) × (t.rest.clients p ≡ some d) × (d.connected ≡ true) × (d.handshaking ≡ false))

-- Why the ACK is refused: the client has not registered, or there is no memory for a screen.
abbrev pub Unready : Os → Client → S → Type 0
Unready os c s = (c.handshaking ≡ false) ⊎ (os.malloc s.world.log ≡ none)

-- The ACK that ends the handshake, from a client that is found on the pending list. If the client has
-- not registered, or if there is no memory for a screen, then it is refused without a change of the
-- server's state. If the client has registered and there is memory, then the call succeeds, the
-- client has a screen of its own in this memory, the last one, is off the pending list, and is
-- connected.
pub client_handshake-Joined :
    (os : Os) (p : ℕ) (c : Client) (s : S)
    → s.rest.clients p ≡ some c
    → find_client s.rest.pending c.socket s ≡ ok (some p) s
    → Returns (client_handshake os p s) (λ r t.
      (Unready os c s × (r ≡ failure) × (t.rest ≡ s.rest))
      ⊎ ((c.handshaking ≡ true)
          × (a : ℕ) × (os.malloc s.world.log ≡ some a)
          × (r ≡ success)
          × Joined a p s t))
unfolding client_handshake connect_client remove_pending
client_handshake-Joined os p c s e found = elim (Bool-cases c.handshaking) [
  | inr f ↦ rw (client_handshake, ◌>>=◌, e) (simp f (inl (inl refl, refl, refl)))
  | inl t ↦ elim (Option-cases (os.malloc s.world.log)) [
    | inl m ↦
        rw (client_handshake, connect_client, ◌>>=◌, e) (simp (t, m) (inl (inr refl, refl, refl)))
    | inr (a, m) ↦
        let found' =
          find_client_world s.rest.pending c.socket (some p) s (enter malloc s.world) found in
        rw (client_handshake, connect_client, ◌>>=◌, e)
          (simp (t, m)
            (rw (◌>>=◌, e)
              (rw (remove_pending, ◌>>=◌, found')
                (inr (
                  refl,
                  a,
                  refl,
                  refl,
                  (refl, refl, (_, update_same s.rest.clients p (some _), refl, refl)),
                )))))
  ]
]
