-- ===== src/Fdpoll/Poll.antt =====
-- fdpoll_handler_poll. The callbacks get the whole state of the program, `Loop C D`, of which the
-- handler table is a part: `D` is the rest. `call c fd flags` runs the callback of a node.
pub mod Removal
pub mod Dangling
use gtscreen.Prelude.{
  ℕ, ◌+◌, ◌<◌, ◌^◌, ◌≡◌, Bool, true, false, ◌||◌, not, Option, none, some, List, [], ◌∷◌, ◌++◌,
  arith, ltb, leb, ◌==◌, if◌then◌else◌, bit_and, length, Status, success, failure, Run, ok, fault,
  stuck, M, pure, ◌>>=◌, ◌>>◌,
}
use gtscreen.Os.{Os, World, Answer, done, failed, Event, epoll_wait, enter, is_eintr, Errno}
use gtscreen.Fdpoll.{Node, Handler, max_fdpoll_handler, remove}

pub record Loop (C D : Type 0) : Type 0 where
  pub handler : Handler C
  pub world : World
  pub rest : D

-- The return codes of a callback: FDPOLL_HANDLER_OK, FDPOLL_HANDLER_REMOVE, anything else.
pub data Code : Type 0 where
  code_ok code_remove code_bad : Code

-- EPOLLHUP | EPOLLERR
abbrev pub hup_err : ℕ
hup_err = 24

abbrev pub is_set : ℕ → ℕ → Bool
is_set flags mask = not (bit_and flags mask == 0)

-- What the loop over the events does next: go on with the queue of removals, or return -1.
pub data Next : Type 0 where
  go : List ℕ → Next
  halt : Next

-- `(int)self->max` is negative from 2 ^ 31 on.
abbrev pub queue_full : ℕ → List ℕ → Bool
queue_full max queued = leb (2 ^ 31) max || leb max (length queued)

module _ {C : Type 0} where
  unfoldable pub node_at : List (Node C) → ℕ → Option (Node C)
  node_at [] p = none
  node_at (n ∷ ns) p = if n.addr == p then some n else node_at ns p

module _ {C D : Type 0} where
  -- A read through `data`: no node of the table has the address of a freed one.
  pub deref : ℕ → M (Loop C D) (Node C)
  unfolding node_at
  deref p s = elim (node_at s.handler.list p) [ none ↦ fault | some n ↦ ok n s ]

  enqueue : ℕ → List ℕ → M (Loop C D) Next
  unfolding deref
  enqueue p queued s =
      if queue_full s.handler.max queued
      then ok halt s
      else (do n ← deref p; pure (go (queued ++ n.fd ∷ []))) s

  -- The three branches on the code that the callback returned.
  finish : Code → ℕ → ℕ → List ℕ → M (Loop C D) Next
  unfolding enqueue
  finish code_remove flags p queued = enqueue p queued
  finish code_ok flags p queued =
      if is_set flags hup_err then enqueue p queued else pure (go queued)
  finish code_bad flags p queued = if is_set flags hup_err then enqueue p queued else pure halt

  -- The removals, after all events: a failure is only reported.
  pub remove_queued : Os → List ℕ → M (Loop C D) (Unit {0})
  remove_queued os [] s = ok tt s
  remove_queued os (fd ∷ fds) s =
      let r = remove os s.handler fd s.world in
      remove_queued os fds (record s { handler = r.0; world = r.1 })

  after_events : Os → Next → M (Loop C D) Status
  unfolding remove_queued
  after_events os halt = pure failure
  after_events os (go queued) = remove_queued os queued >> pure success

  abbrev proceed : (List ℕ → M (Loop C D) Next) → Next → M (Loop C D) Next
  proceed k halt = pure halt
  proceed k (go queued) = k queued

  module _ (call : C → ℕ → ℕ → M (Loop C D) Code) where
    dispatch : Option C → ℕ → ℕ → ℕ → List ℕ → M (Loop C D) Next
    unfolding finish
    dispatch none fd flags p queued = pure halt
    dispatch (some c) fd flags p queued = do r ← call c fd flags; finish r flags p queued

    -- One event of the array.
    pub handle_event : Event → List ℕ → M (Loop C D) Next
    unfolding dispatch deref
    handle_event e queued =
        if e.ptr == 0
        then pure halt
        else do n ← deref e.ptr; dispatch n.cb n.fd e.flags e.ptr queued

    pub handle_events : List Event → List ℕ → M (Loop C D) Next
    unfolding handle_event
    handle_events [] queued = pure (go queued)
    handle_events (e ∷ es) queued = do next ← handle_event e queued; proceed (handle_events es) next

    abbrev wait_failed : Errno → Status
    wait_failed e = if is_eintr e then success else failure

    -- An array that is full counts as a failure of `epoll_wait`, by the old value of `errno`.
    pub poll : Os → M (Loop C D) Status
    unfolding handle_events after_events
    poll os s = elim (os.epoll_wait s.world.log s.handler.fdpoll_fd) [
      | failed e ↦ ok (wait_failed e) (record s {
        world = record (enter (epoll_wait s.handler.fdpoll_fd) s.world) { errno = e };
      })
      | done events ↦
          let s' = record s { world = enter (epoll_wait s.handler.fdpoll_fd) s.world } in
          let run = (do next ← handle_events events []; after_events os next) s' in
          if leb max_fdpoll_handler (length events) then ok (wait_failed s.world.errno) s' else run
    ]
