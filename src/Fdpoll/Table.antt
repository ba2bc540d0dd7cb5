-- ===== src/Fdpoll/Table.antt =====
-- fdpoll_handler_add and fdpoll_handler_remove as operations on a map from descriptors to nodes.
use gtscreen.Prelude.{
  ℕ, suc, ◌+◌, ◌<◌, ◌≡◌, ◌⊎◌, Bool, true, false, Option, none, some, List, [], ◌∷◌, arith, ◌==◌,
  if◌then◌else◌, length, success, failure, ℤ, pos, negsuc, is_some,
}
use gtscreen.Os.{Os, World}
use gtscreen.Fdpoll.{Node, Handler, find_node, add, unlink, remove, max_fdpoll_handler}

abbrev pub is_fd : ℤ → ℕ → Bool
is_fd (pos n) g = n == g
is_fd (negsuc _) g = false

module _ {C : Type 0} where
  -- No two nodes serve one descriptor.
  abbrev pub Apart : List (Node C) → Type 0
  Apart [] = Unit {0}
  Apart (n ∷ ns) = (find_node ns n.fd ≡ none) × Apart ns

  pub find_node-unlink :
      (ns : List (Node C)) (fd g : ℕ)
      → Apart ns
      → find_node (unlink ns fd) g ≡ (if fd == g then none else find_node ns g)
  unfolding find_node unlink
  find_node-unlink [] fd g a = ground arith
  find_node-unlink (n ∷ ns) fd g a = ground (arith, find_node-unlink ns fd g a.1)

  pub unlink-Apart : (ns : List (Node C)) (fd : ℕ) → Apart ns → Apart (unlink ns fd)
  unfolding unlink
  unlink-Apart [] fd a = tt
  unlink-Apart (n ∷ ns) fd a =
      ground (arith, find_node-unlink ns fd n.fd a.1, unlink-Apart ns fd a.1)

  pub length-unlink :
      (ns : List (Node C)) (fd : ℕ)
      → is_some (find_node ns fd) ≡ true
      → suc (length (unlink ns fd)) ≡ length ns
  unfolding find_node unlink
  length-unlink [] fd e = ground arith
  length-unlink (m ∷ ns) fd e = ground (arith, length-unlink ns fd)

  -- The table seen as a map from descriptors to callbacks.
  abbrev pub lookup : Handler C → ℕ → Option C
  lookup h fd = elim (find_node h.list fd) [ none ↦ none | some n ↦ n.cb ]

  -- An addition that succeeded: the descriptor had no handler, there was room for one more, and it
  -- is the only one whose callback differs from before.
  abbrev pub Added : Handler C → ℤ → Option C → ℕ → Handler C → Type 0
  Added h fd cb g h' =
      (lookup h' g ≡ (if is_fd fd g then cb else lookup h g))
      × ((is_fd fd g ≡ false) ⊎ (find_node h.list g ≡ none))
      × (h.count < max_fdpoll_handler)
      × (h.count < h.max)
      × (h'.count ≡ h.count + 1)

  -- Adding either fails and leaves the table as it is, or succeeds: then the descriptor had no
  -- handler, there was room for one more, and it is the only one whose callback changes.
  pub lookup-add :
      (os : Os) (h : Handler C) (fd : ℤ) (flags : ℕ) (cb : Option C) (w : World) (g : ℕ)
      → let r = add os h fd flags cb w in
        ((r.2 ≡ failure) × (r.0 ≡ h)) ⊎ ((r.2 ≡ success) × Added h fd cb g r.0)
  unfolding add
  lookup-add os h (negsuc m) flags cb w g = ground arith
  lookup-add os h (pos n) flags none w g = ground arith
  lookup-add os h (pos n) flags (some c) w g = ground arith

  pub find_node-remove :
      (os : Os) (h : Handler C) (fd : ℕ) (w : World) (g : ℕ)
      → Apart h.list
      → is_some (find_node h.list fd) ≡ true
      → h.count ≡ length h.list
      → find_node (remove os h fd w).0.list g ≡ (if fd == g then none else find_node h.list g)
  unfolding remove
  find_node-remove os h fd w g a e c =
      ground (arith, find_node-unlink h.list fd g a, length-unlink h.list fd e)

  -- In a table whose count is right and which has one node to a descriptor, removing a descriptor
  -- that has a handler takes away that one and no other, and lowers the count by one, also when the
  -- kernel then refuses to take it out of the epoll set.
  pub lookup-remove :
      (os : Os) (h : Handler C) (fd : ℕ) (w : World) (g : ℕ)
      → Apart h.list
      → is_some (find_node h.list fd) ≡ true
      → h.count ≡ length h.list
      → let r = remove os h fd w in
        (lookup r.0 g ≡ (if fd == g then none else lookup h g)) × (suc r.0.count ≡ h.count)
  unfolding remove
  lookup-remove os h fd w g a e c =
      ground (arith, find_node-unlink h.list fd g a, length-unlink h.list fd e)
