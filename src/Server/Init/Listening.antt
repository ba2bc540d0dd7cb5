-- ===== src/Server/Init/Listening.antt =====
-- server.c, spr16_server_init: the handlers of a server that started.
use gtscreen.Prelude.{ℕ, ◌≡◌, ◌⊎◌, true, Option, none, some, List, ◌∷◌, success, failure}
use gtscreen.Os.{Os, World, Call, free}
use gtscreen.Fdpoll.{Handler, Node}
use gtscreen.Server.State.{Server}
use gtscreen.Input.Register.{Reader, Registry}
use gtscreen.Input.Register.Attached.{IsRegistry}
use gtscreen.Server.Init.{Answers, open_log}

module _ {C : Type 0} (os : Os) (listener : ℕ → C) (a : Answers) where
  -- A node for the socket that calls listener_callback on the server.
  abbrev pub Listens : ℕ → ℕ → List (Node C) → Node C → Handler C → Type 0
  Listens sock self old n h = (n.fd ≡ sock) × (n.cb ≡ some (listener self)) × (h.list ≡ n ∷ old)

  -- The socket was made, bound as the real user and set to listen as the effective user again.
  abbrev pub Listening : ℕ → Type 0
  Listening sock =
      (a.socket ≡ some sock)
      × (a.to_real ≡ true)
      × (a.bound ≡ true)
      × (a.to_effective ≡ true)
      × (a.listening ≡ true)

  -- The socket listens, the log is open, and the socket has its node; or the table is as before; or the log failed, and a node for
  -- the socket was left behind.
  abbrev pub Created : ℕ → List (Node C) → Handler C × World × Option ℕ → Type 0
  Created self old r =
      ((sock : ℕ) × (n : Node C) × Listening sock
        × (open_log a ≡ success)
        × (r.2 ≡ some sock)
        × Listens sock self old n r.0)
      ⊎ ((r.2 ≡ none)
          × ((r.0.list ≡ old)
              ⊎ ((sock : ℕ) × (n : Node C) × (a.socket ≡ some sock)
                  × (open_log a ≡ failure)
                  × Listens sock self old n r.0)))

module _ {C : Type 0} (os : Os) (reader : Reader → ℕ → C) (listener : ℕ → C) (a : Answers) where
  abbrev pub Active : List (Node C) → Registry ℕ C → Server → ℕ → Node C → Type 0
  Active old r s self n =
      Listening os listener a s.listen_fd
      × (open_log a ≡ success)
      × (s.is_active ≡ true)
      × (n.fd ≡ s.listen_fd)
      × (n.cb ≡ some (listener self))
      × IsRegistry reader (n ∷ old) r

  -- The last call was to free the memory that the node's callback is called on.
  abbrev pub LeftBehind : List (Node C) → Registry ℕ C → Node C → Type 0
  LeftBehind old r n =
      (self : ℕ) × (calls : List Call) × (r.world.log ≡ free self ∷ calls)
      × (n.cb ≡ some (listener self))
      × (r.handler.list ≡ n ∷ old)

  abbrev pub Initialised : List (Node C) → Registry ℕ C × Option Server → Type 0
  Initialised old q =
      ((s : Server) × (self : ℕ) × (n : Node C) × (q.1 ≡ some s) × Active old q.0 s self n)
      ⊎ ((q.1 ≡ none)
          × ((q.0.handler.list ≡ old)
              ⊎ ((n : Node C) × (open_log a ≡ failure) × LeftBehind old q.0 n)))
