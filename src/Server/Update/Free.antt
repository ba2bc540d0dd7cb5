-- ===== src/Server/Update/Free.antt =====
-- server_free_list, and the clients in memory.
use gtscreen.Prelude.{
  ℕ, ◌≡◌, refl, false, Bool-cases, inl, inr, pure, if◌then◌else◌, Option-cases, none, List, [], ◌∷◌,
  arith, has, Distinct, All, Returns, Returns-bind, Status, success, failure, ◌==◌, ◌>>=◌,
}
use gtscreen.Os.{Os, close}
use gtscreen.Message.Write.{Answer-cases}
use gtscreen.Server.State.{Alive, Cmd, S}
use gtscreen.Server.Update.{free_one, free_each, free_all}

-- The clients of a list are gone, and no others.
abbrev pub Gone : S → List ℕ → S → Type 0
Gone s ps t = (q : ℕ) → t.rest.clients q ≡ (if has q ps then none else s.rest.clients q)

abbrev Freed : S → ℕ → Status → S → Type 0
Freed s p r t = Gone s (p ∷ []) t

free_one-Freed : (os : Os) (p : ℕ) (s : S) → Alive s p → Returns (free_one os p s) (Freed s p)
unfolding free_one
free_one-Freed os p s (c, e) = elim (Bool-cases (c.shmem_size == 0)) [
  | inl t ↦ rw (free_one, ◌>>=◌, e, t) (λ q. ground arith)
  | inr f ↦ elim (Option-cases c.shmem_fd) [
    | inl n ↦
        elim (Answer-cases (os.munmap (close c.socket ∷ s.world.log) c.shmem_addr c.shmem_size)) [
          | inl (_, u) ↦ rw (free_one, ◌>>=◌, e, f, n, u) (λ q. ground arith)
          | inr (_, u) ↦ rw (free_one, ◌>>=◌, e, f, n, u) (λ q. ground arith)
        ]
    | inr (fd, n) ↦
        elim (Answer-cases
          (os.munmap (close fd ∷ close c.socket ∷ s.world.log) c.shmem_addr c.shmem_size)) [
            | inl (_, u) ↦ rw (free_one, ◌>>=◌, e, f, n, u) (λ q. ground arith)
            | inr (_, u) ↦ rw (free_one, ◌>>=◌, e, f, n, u) (λ q. ground arith)
          ]
  ]
]

Alive-tail :
    (p : ℕ) (ps : List ℕ) (s t : S)
    → has p ps ≡ false
    → Gone s (p ∷ []) t
    → All (Alive s) ps
    → All (Alive t) ps
Alive-tail p [] s t h g a = tt
Alive-tail p (q ∷ ps) s t h g a =
    ((a.0.0, ground (arith, g q)), Alive-tail p ps s t (ground arith) g a.1)

free_each-Gone :
    (os : Os) (ps : List ℕ) (s : S)
    → Distinct ps
    → All (Alive s) ps
    → Returns (free_each os ps s) (λ _ t. Gone s ps t)
unfolding free_each
free_each-Gone os [] s d a = λ q. refl
free_each-Gone os (p ∷ ps) s d a =
    Returns-bind (free_one os p) _ s _ _ (free_one-Freed os p s a.0) (λ r t g.
      Returns-bind (free_each os ps) _ t _ _
        (free_each-Gone os ps t d.1 (Alive-tail p ps s t d.0 g a.1))
        (λ r' u h. last r r' u (λ q. ground (arith, g q, h q))))
  where
    last :
        (r r' : Status) (u : S)
        → Gone s (p ∷ ps) u
        → Returns
            (elim r as (λ _. Cmd Status) [ success ↦ pure r' | failure ↦ pure failure ] u)
            (λ _ t. Gone s (p ∷ ps) t)
    last success r' u g = g
    last failure r' u g = g

-- With distinct clients on the free list, all of them allocated, server_free_list reads no freed
-- memory and frees none twice: afterwards exactly these clients are gone and the list is empty,
-- also when memory could not be unmapped.
pub free_all-Gone :
    (os : Os) (s : S)
    → Distinct s.rest.free_list
    → All (Alive s) s.rest.free_list
    → Returns (free_all os s) (λ _ t. Gone s s.rest.free_list t × (t.rest.free_list ≡ []))
unfolding free_all
free_all-Gone os s d a =
    Returns-bind (free_each os s.rest.free_list) _ s _ _ (free_each-Gone os s.rest.free_list s d a)
      (λ r t g. (g, refl))
