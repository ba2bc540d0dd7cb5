-- ===== src/Fdpoll/Poll/Dangling.antt =====
-- fdpoll_handler_poll with a callback that removes its own node.
use gtscreen.Prelude.{ℕ, ◌≡◌, ◌≢◌, true, false, none, some, List, arith, ◌==◌, ok, fault, M, ◌>>=◌}
use gtscreen.Os.{Event}
use gtscreen.Fdpoll.{Node}
use gtscreen.Fdpoll.Poll.{
  Loop, Code, code_ok, hup_err, is_set, node_at, deref, queue_full, enqueue, finish, dispatch,
  handle_event,
}
use gtscreen.Fdpoll.Poll.Removal.{deref_lem}

module _ {C D : Type 0} (call : C → ℕ → ℕ → M (Loop C D) Code) where
  -- If the event has EPOLLHUP or EPOLLERR, the callback of its node removes this node itself and
  -- returns normally, and the queue has room, then the handling of the event reads the freed node:
  -- it needs the descriptor to queue it for removal.
  pub self_removal_faults :
      (e : Event) (q : List ℕ) (s t : Loop C D) (n : Node C) (c : C)
      → node_at s.handler.list e.ptr ≡ some n
      → n.cb ≡ some c
      → e.ptr ≢ 0
      → is_set e.flags hup_err ≡ true
      → call c n.fd e.flags s ≡ ok code_ok t
      → node_at t.handler.list e.ptr ≡ none
      → queue_full t.handler.max q ≡ false
      → handle_event call e q s ≡ fault
  unfolding handle_event dispatch finish enqueue
  self_removal_faults e q s t n c k kc nonzero hup run gone room =
      let test : (e.ptr == 0) ≡ false = ground arith in
      rw (test, deref_lem e.ptr n s k, ◌>>=◌, kc, run, hup, room, deref, gone)
