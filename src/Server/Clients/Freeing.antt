-- ===== src/Server/Clients/Freeing.antt =====
-- server_free_client: the list of clients to be freed, and the handler of such a client.
use gtscreen.Prelude.{
  ℕ, ◌≤◌, ◌≡◌, refl, ◌⊎◌, inl, inr, true, false, ◌||◌, not, none, some, List, [], ◌∷◌, ◌++◌, arith,
  has, has-append, Distinct, length, length-append, Returns, Status, success, failure, is_some,
  Option-cases, Bool-cases, ltb, ◌>>=◌,
}
use gtscreen.Os.{Os, World}
use gtscreen.Fdpoll.{Handler, remove, find_node, max_fdpoll_handler}
use gtscreen.Fdpoll.Table.{lookup, lookup-remove}
use gtscreen.Fdpoll.Invariant.{IsValid, remove-IsValid}
use gtscreen.Server.State.{Client, Callback, S}
use gtscreen.Server.Clients.{free_client}

abbrev pub FreeList : List ℕ → Type 0
FreeList ps = Distinct ps × (length ps ≤ max_fdpoll_handler)

FreeList-snoc : (p : ℕ) (ps : List ℕ) → has p ps ≡ false → Distinct ps → Distinct (ps ++ p ∷ [])
FreeList-snoc p [] h d = (refl, tt)
FreeList-snoc p (q ∷ ps) h d =
    (ground (arith, has-append q ps (p ∷ [])), FreeList-snoc p ps (ground arith) d.1)

remove-success :
    (os : Os) (h : Handler Callback) (fd : ℕ) (w : World)
    → IsValid h
    → (remove os h fd w).2 ≡ success
    → IsValid (remove os h fd w).0 × (lookup (remove os h fd w).0 fd ≡ none)
unfolding remove
remove-success os h fd w v e = elim (Option-cases (find_node h.list fd)) [
  | inl n ↦ ground (arith)
  | inr (n, k) ↦
      let p : is_some (find_node h.list fd) ≡ true = rw k refl in
      (remove-IsValid os h fd w p v, ground (arith, lookup-remove os h fd w fd v.apart p v.counted))
]

-- A client on the free list, its handler removed, or a failure.
abbrev pub Listed : ℕ → Client → Status → S → Type 0
Listed p c r t =
    FreeList t.rest.free_list
    × ((r ≡ failure)
        ⊎ (IsValid t.handler
            × (lookup t.handler c.socket ≡ none)
            × (has p t.rest.free_list ≡ true)))

-- Putting a client that exists on the free list, from a well-formed handler table and a list
-- without duplicates that fits its array: the call ends, and the list again fits and has no
-- duplicates. If the call succeeds, the client is on the list, its socket has no handler any more,
-- and the table is well formed.
pub free_client-FreeList :
    (os : Os) (p : ℕ) (c : Client) (s : S)
    → s.rest.clients p ≡ some c
    → IsValid s.handler
    → FreeList s.rest.free_list
    → Returns (free_client os p s) (Listed p c)
unfolding free_client
free_client-FreeList os p c s e v f =
    elim (Bool-cases
      (not (ltb (length s.rest.free_list) max_fdpoll_handler) || has p s.rest.free_list)) [
        | inl t ↦ rw (free_client, ◌>>=◌, e, t) (f, inl refl)
        | inr n ↦ go n (remove os s.handler c.socket s.world).2 refl
      ]
  where
    go :
        (not (ltb (length s.rest.free_list) max_fdpoll_handler) || has p s.rest.free_list) ≡ false
        → (r : Status) → (remove os s.handler c.socket s.world).2 ≡ r
        → Returns (free_client os p s) (Listed p c)
    go n failure k = rw (free_client, ◌>>=◌, e, n, k) (f, inl refl)
    go n success k =
        let v' = remove-success os s.handler c.socket s.world v k in
        rw (free_client, ◌>>=◌, e, n, k)
          (
            (
              FreeList-snoc p s.rest.free_list (ground arith) f.0,
              ground (arith, length-append s.rest.free_list (p ∷ [])),
            ),
            inr (v'.0, v'.1, ground (arith, has-append p s.rest.free_list (p ∷ []))),
          )
