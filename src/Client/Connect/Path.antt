-- ===== src/Client/Connect/Path.antt =====
-- platform/linux/client.c and server.c: the path of the socket on the two sides.
use gtscreen.Prelude.{
  ℕ, suc, zero, ◌≤◌, ◌≡◌, refl, inl, inr, some, List, [], ◌∷◌, ◌++◌, arith, length, take, leb,
  Bool-cases,
}
use gtscreen.Os.{Os, World}
use gtscreen.Fdpoll.{Handler}
use gtscreen.Start.{Text}
use gtscreen.Server.Init.{Answers, server_create_socket, sockpath, sun_path_size}
use gtscreen.Client.Connect.{client_path}

take-all : (n : ℕ) (xs : List ℕ) → length xs ≤ n → take n xs ≡ xs
take-all zero [] h = refl
take-all (suc n) [] h = refl
take-all zero (x ∷ xs) h = absurd (omega arith)
take-all (suc n) (x ∷ xs) h = ground (arith, take-all n xs)

-- When the server has made its socket under a name, spr16_client_connect with that name connects to
-- the very path that the server's socket is bound to: it is not cut.
pub server_create_socket-client_path :
    {C : Type 0} (os : Os) (listener : ℕ → C) (a : Answers) (sockname : Text) (self sock : ℕ)
    (h : Handler C) (w : World)
    → (server_create_socket os listener a sockname self h w).2 ≡ some sock
    → client_path sockname ≡ sockpath ++ 47 ∷ sockname
unfolding server_create_socket
server_create_socket-client_path os listener a sockname self sock h w e =
    elim (Bool-cases (leb sun_path_size (length (sockpath ++ 47 ∷ sockname)))) [
      | inl long ↦ absurd (ground arith)
      | inr fits ↦ take-all 107 (sockpath ++ 47 ∷ sockname) (ground arith)
    ]
