-- ===== src/Fdpoll/Poll/Removal.antt =====
-- fdpoll_handler_poll: the removal of the queued descriptors, and a read of a node by its address.
use gtscreen.Prelude.{
  ℕ, ◌≡◌, refl, true, false, none, some, List, [], ◌∷◌, arith, if◌then◌else◌, ok, Returns,
  Returns-mono, All, has, Distinct, is_some,
}
use gtscreen.Os.{Os, World}
use gtscreen.Fdpoll.{Node, Handler, remove, find_node}
use gtscreen.Fdpoll.Table.{lookup, lookup-remove, find_node-remove}
use gtscreen.Fdpoll.Invariant.{IsValid, remove-IsValid}
use gtscreen.Fdpoll.Poll.{Loop, node_at, deref, remove_queued}

module _ {C : Type 0} where
  -- `fd` has a handler.
  abbrev pub Present : Handler C → ℕ → Type 0
  Present h fd = is_some (find_node h.list fd) ≡ true

  Present-remove :
      (os : Os) (h : Handler C) (fd : ℕ) (w : World) (q : List ℕ)
      → IsValid h
      → Present h fd
      → has fd q ≡ false
      → All (Present h) q
      → All (Present (remove os h fd w).0) q
  Present-remove os h fd w [] v p d a = tt
  Present-remove os h fd w (g ∷ q) v p d a = (
    ground (arith, find_node-remove os h fd w g v.apart p v.counted),
    Present-remove os h fd w q v p (ground arith) a.1,
  )

module _ {C D : Type 0} (os : Os) where
  -- The removals after the events of a poll, of distinct descriptors that all have a handler, from a
  -- well-formed table: they end without a fault, the table is well formed, and every descriptor has
  -- the handler that it had, except the removed ones, which have none.
  pub remove_queued-Returns :
      (q : List ℕ) (s : Loop C D)
      → IsValid s.handler
      → Distinct q
      → All (Present s.handler) q
      → Returns (remove_queued {D = D} os q s) (λ _ t.
        IsValid t.handler
        × ((g : ℕ) → lookup t.handler g ≡ (if has g q then none else lookup s.handler g)))
  unfolding remove_queued
  remove_queued-Returns [] s v d a = (v, λ g. refl)
  remove_queued-Returns (fd ∷ q) s v d a =
      let r = remove os s.handler fd s.world in
      let s' : Loop C D = record s { handler = r.0; world = r.1 } in
      Returns-mono (remove_queued {D = D} os q s') _ _
        (remove_queued-Returns q s' (remove-IsValid os s.handler fd s.world a.0 v) d.1
          (Present-remove os s.handler fd s.world q v a.0 d.0 a.1))
        (λ _ t p. (
          p.0,
          λ g. ground (arith, p.1 g, lookup-remove os s.handler fd s.world g v.apart a.0 v.counted),
        ))

pub deref_lem :
    {C D : Type 0} (p : ℕ) (n : Node C) (s : Loop C D)
    → node_at s.handler.list p ≡ some n
    → deref p s ≡ ok n s
unfolding deref
deref_lem p n s e = rw (e, deref)
