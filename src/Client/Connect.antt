-- ===== src/Client/Connect.antt =====
-- platform/linux/client.c, spr16_client_connect. What the system calls answer is an argument, but for
-- epoll.
pub mod Path
use gtscreen.Prelude.{
  ℕ, ◌-◌, Bool, true, false, not, Option, none, some, List, [], ◌∷◌, ◌++◌, take, if◌then◌else◌, ok,
  M,
}
use gtscreen.Os.{Os, World, Answer, done, failed, close, enter, epoll_create, epoll_ctl_add, leave}
use gtscreen.Start.{Text, or_default}
use gtscreen.Client.{Program, no_fd}
use gtscreen.Server.Init.{sockpath, sun_path_size}

-- The name is an argument, or that of the environment, or the default.
abbrev pub server_name : Option Text → Option Text → Text → Text
server_name (some name) variable default_socket = name
server_name none variable default_socket = or_default default_socket variable

-- `snprintf` cuts the path to the size of `sun_path`, with its terminator.
abbrev pub client_path : Text → Text
client_path name = take (sun_path_size - 1) (sockpath ++ 47 ∷ name)

module _ {C D : Type 0} (os : Os) where
  -- The socket is in the set of a new epoll descriptor.
  unfoldable pub watch : ℕ → M (Program C D) (Option ℕ)
  watch sock p =
      leave (epoll_create true) p.world (os.epoll_create p.world.log true)
        (λ efd w.
          leave (epoll_ctl_add efd sock 1 sock) w (os.epoll_ctl_add w.log efd sock 1 sock)
            (λ _ v. ok (some sock) (record p { epoll_fd = efd; world = v }))
            (λ v.
              ok none
                (record p { epoll_fd = efd; world = enter (close sock) (enter (close efd) v) })))
        (λ w. ok none (record p { epoll_fd = no_fd; world = enter (close sock) w }))

  -- `socket` and `connected`: the answers of `socket`, and of `connect` to a path. A socket that
  -- could not be connected is not closed.
  unfoldable pub client_connect : Text → Option ℕ → (Text → Bool) → M (Program C D) (Option ℕ)
  unfolding watch
  client_connect name none connected p = ok none (record p { socket = no_fd })
  client_connect name (some sock) connected p =
      let q = record p { socket = sock } in
      if not (connected (client_path name)) then ok none q else watch sock q
