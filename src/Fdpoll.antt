-- ===== src/Fdpoll.antt =====
-- platform/fdpoll-handler.c and fdpoll-handler.h: the table of poll handlers over epoll.
-- The linked list of `struct fdpoll_node` is a list of nodes, each with its address; a node is
-- allocated exactly while it is in the list, so an address that no node of the list has dangles.
-- `C` stands for a callback with its `user_data`; a NULL callback is `none`.
pub mod Table
pub mod Invariant
pub mod Poll
use gtscreen.Prelude.{
  ℕ, ◌+◌, ◌-◌, ◌≡◌, refl, Bool, true, false, ◌||◌, Option, none, some, List, [], ◌∷◌, arith, ltb,
  leb, ◌==◌, if◌then◌else◌, bit_or, Status, success, failure, ℤ, pos, negsuc,
}
use gtscreen.Os.{
  Os, World, Answer, Call, malloc, free, close, epoll_create, epoll_ctl_add, epoll_ctl_del,
  fcntl_getfl, fcntl_setfl, enter, leave, set_errno, zero_errno, esrch, eoverflow, done, failed,
}

-- MAX_FDPOLL_HANDLER
abbrev pub max_fdpoll_handler : ℕ
max_fdpoll_handler = 2048

abbrev pub o_nonblock : ℕ
o_nonblock = 2048

pub record Node (C : Type 0) : Type 0 where
  pub addr : ℕ
  pub fd : ℕ
  pub cb : Option C

pub record Handler (C : Type 0) : Type 0 where
  pub fdpoll_fd : ℕ
  pub count : ℕ
  pub max : ℕ
  pub list : List (Node C)

module _ {C : Type 0} where
  -- A failure of `epoll_create1` frees the table again.
  pub create : Os → ℕ → Bool → World → Option (Handler C) × World
  create os max cloexec w = elim (os.malloc w.log) [
    | none ↦ (none, enter malloc w)
    | some self ↦
        leave (epoll_create cloexec) (enter malloc w) (os.epoll_create (enter malloc w).log cloexec)
          (λ fd w'. (some (record { fdpoll_fd = fd; count = 0; max = max; list = [] }), w'))
          (λ w'. (none, enter (free self) w'))
  ]

  unfoldable pub find_node : List (Node C) → ℕ → Option (Node C)
  find_node [] fd = none
  find_node (n ∷ ns) fd = if n.fd == fd then some n else find_node ns fd

  -- The failure of `fcntl`: the descriptor leaves the epoll set again, whatever that returns.
  unregister : Os → Handler C → ℕ → ℕ → World → Handler C × World × Status
  unregister os h p fd w =
      leave (epoll_ctl_del h.fdpoll_fd fd) w (os.epoll_ctl_del w.log h.fdpoll_fd fd)
        (λ _ w'. (h, enter (free p) w', failure)) (λ w'. (h, enter (free p) w', failure))

  abbrev pub insert : Handler C → ℕ → ℕ → Option C → Handler C
  insert h p fd cb = record h {
    count = h.count + 1;
    list = record { addr = p; fd = fd; cb = cb } ∷ h.list;
  }

  -- fdpoll_handler_add from the call of `fcntl(F_GETFL)` on.
  set_nonblock : Os → Handler C → ℕ → ℕ → Option C → World → Handler C × World × Status
  unfolding unregister
  set_nonblock os h p fd cb w =
      leave (fcntl_getfl fd) w (os.fcntl_getfl w.log fd)
        (λ flags w'.
          leave (fcntl_setfl fd (bit_or flags o_nonblock)) w'
            (os.fcntl_setfl w'.log fd (bit_or flags o_nonblock))
            (λ _ w''. (insert h p fd cb, w'', success)) (unregister os h p fd))
        (unregister os h p fd)

  -- fdpoll_handler_add from the call of `malloc` on.
  register : Os → Handler C → ℕ → ℕ → Option C → World → Handler C × World × Status
  unfolding set_nonblock
  register os h fd flags cb w = elim (os.malloc w.log) [
    | none ↦ (h, enter malloc w, failure)
    | some p ↦
        leave (epoll_ctl_add h.fdpoll_fd fd flags p) (enter malloc w)
          (os.epoll_ctl_add (enter malloc w).log h.fdpoll_fd fd flags p)
          (λ _ w'. set_nonblock os h p fd cb w') (λ w'. (h, enter (free p) w', failure))
  ]

  unfoldable pub add : Os → Handler C → ℤ → ℕ → Option C → World → Handler C × World × Status
  unfolding register find_node
  add os h (negsuc _) flags cb w = (h, w, failure)
  add os h (pos fd) flags none w = (h, w, failure)
  add os h (pos fd) flags (some c) w =
      if leb max_fdpoll_handler h.count || leb h.max h.count
      then (h, w, failure)
      else elim (find_node h.list fd) [
        | some _ ↦ (h, w, failure)
        | none ↦ register os h fd flags (some c) w
      ]

  -- The list without its first node for `fd`.
  unfoldable pub unlink : List (Node C) → ℕ → List (Node C)
  unlink [] fd = []
  unlink (n ∷ ns) fd = let rest = n ∷ unlink ns fd in if n.fd == fd then ns else rest

  -- The count falls before the node is looked for.
  unfoldable pub remove : Os → Handler C → ℕ → World → Handler C × World × Status
  unfolding find_node unlink
  remove os h fd w =
      if h.count == 0 then (h, set_errno eoverflow w, failure) else elim (find_node h.list fd) [
        | none ↦ (record h { count = h.count - 1 }, set_errno esrch w, failure)
        | some n ↦
            let h' = record h { count = h.count - 1; list = unlink h.list fd } in
            let w' = enter (free n.addr) (set_errno zero_errno w) in
            leave (epoll_ctl_del h.fdpoll_fd fd) w' (os.epoll_ctl_del w'.log h.fdpoll_fd fd)
              (λ _ w''. (h', w'', success)) (λ w''. (h', w'', failure))
      ]

  free_nodes : List (Node C) → World → World
  free_nodes [] w = w
  free_nodes (n ∷ ns) w = free_nodes ns (enter (free n.addr) w)

  -- fdpoll_handler_destroy, with the address of the handler itself.
  pub destroy : Handler C → ℕ → World → World
  unfolding free_nodes
  destroy h self w = enter (free self) (enter (close h.fdpoll_fd) (free_nodes h.list w))
