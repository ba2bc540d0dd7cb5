-- ===== src/Fdpoll/Invariant.antt =====
-- The well-formedness of the handler table under its operations.
use gtscreen.Prelude.{
  ℕ, suc, ◌<◌, ◌≤◌, ◌≡◌, Bool, true, Option, none, some, arith, length, failure, ℤ, pos, negsuc,
  is_some,
}
use gtscreen.Os.{Os, World}
use gtscreen.Fdpoll.{Handler, find_node, add, remove, max_fdpoll_handler, create}
use gtscreen.Fdpoll.Table.{Apart, unlink-Apart, length-unlink}

module _ {C : Type 0} where
  pub record IsValid (h : Handler C) : Type 0 where
    pub counted : h.count ≡ length h.list
    pub apart : Apart h.list
    pub bounded : h.count ≤ max_fdpoll_handler
    pub within : h.count ≤ h.max

  -- A table that was just created is well formed.
  pub create-IsValid :
      (os : Os) (max : ℕ) (cloexec : Bool) (w : World) (h : Handler C)
      → (create os max cloexec w).0 ≡ some h
      → IsValid h
  unfolding create
  create-IsValid os max cloexec w h e = ground arith

  -- Every outcome of fdpoll_handler_add leaves a well-formed table well formed: one node to a
  -- descriptor, as many nodes as the count says, and no more than either limit allows.
  pub add-IsValid :
      (os : Os) (h : Handler C) (fd : ℤ) (flags : ℕ) (cb : Option C) (w : World)
      → IsValid h
      → IsValid (add os h fd flags cb w).0
  unfolding add
  add-IsValid os h (negsuc m) flags cb w v = v
  add-IsValid os h (pos n) flags none w v = v
  add-IsValid os h (pos n) flags (some c) w v = ground arith

  -- Removing a descriptor that has a handler leaves a well-formed table well formed, whatever the
  -- kernel answers.
  pub remove-IsValid :
      (os : Os) (h : Handler C) (fd : ℕ) (w : World)
      → is_some (find_node h.list fd) ≡ true
      → IsValid h
      → IsValid (remove os h fd w).0
  unfolding remove
  remove-IsValid os h fd w e v =
      ground (arith, unlink-Apart h.list fd v.apart, length-unlink h.list fd e)

  -- Removing a descriptor that has no handler from a well-formed table with entries fails and keeps
  -- all nodes, but lowers the count, which is then one too low.
  pub remove_absent_drifts :
      (os : Os) (h : Handler C) (fd : ℕ) (w : World)
      → IsValid h
      → find_node h.list fd ≡ none
      → 0 < length h.list
      → let r = remove os h fd w in
        (r.2 ≡ failure) × (r.0.list ≡ h.list) × (suc r.0.count ≡ length r.0.list)
  unfolding remove
  remove_absent_drifts os h fd w v e p = ground arith

  -- Once the count of a table is zero, nothing can be removed from it, whatever it holds.
  pub remove_at_zero :
      (os : Os) (h : Handler C) (fd : ℕ) (w : World)
      → h.count ≡ 0
      → ((remove os h fd w).2 ≡ failure) × ((remove os h fd w).0 ≡ h)
  unfolding remove
  remove_at_zero os h fd w e = ground arith
