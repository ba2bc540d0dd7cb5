-- ===== src/Server/Clients/Search.antt =====
-- screen_find_client, and server_getclient over the screens and the pending clients.
use gtscreen.Prelude.{
  ℕ, ◌≡◌, ◌≢◌, refl, inl, inr, true, Option, none, some, List, [], ◌∷◌, ◌++◌, arith, has,
  has-append, All, All-append, Returns, Returns-bind, Returns-mono, Bool-cases, ◌==◌, ◌>>=◌, pure,
}
use gtscreen.Server.State.{Cmd, Client, Screen, S, Alive, find_client}
use gtscreen.Server.Clients.{find_on_screens, getclient}

-- The address holds a client with the socket, or one with another.
abbrev pub Serves : S → ℕ → ℕ → Type 0
Serves s fd p = (c : Client) × (s.rest.clients p ≡ some c) × (c.socket ≡ fd)

abbrev pub Other : S → ℕ → ℕ → Type 0
Other s fd p = (c : Client) × (s.rest.clients p ≡ some c) × (c.socket ≢ fd)

-- A search among `ps`: a client with the socket, or none has it.
abbrev pub Found : S → ℕ → List ℕ → Option ℕ → S → Type 0
Found s fd ps none t = (t ≡ s) × All (Other s fd) ps
Found s fd ps (some p) t = (t ≡ s) × (has p ps ≡ true) × Serves s fd p

pub find_client-Found :
    (ps : List ℕ) (fd : ℕ) (s : S)
    → All (Alive s) ps
    → Returns (find_client ps fd s) (Found s fd ps)
unfolding find_client
find_client-Found [] fd s a = (refl, tt)
find_client-Found (p ∷ ps) fd s ((c, e), a) = elim (Bool-cases (c.socket == fd)) [
  | inl t ↦ rw (find_client, ◌>>=◌, e, t) (refl, ground arith, (c, e, ground arith))
  | inr f ↦
      rw (find_client, ◌>>=◌, e, f)
        (Returns-mono (find_client ps fd s) (Found s fd ps) _ (find_client-Found ps fd s a)
          (λ o t x. later (ground arith) o t x))
]
  where
    later : c.socket ≢ fd → (o : Option ℕ) (t : S) → Found s fd ps o t → Found s fd (p ∷ ps) o t
    later n none t (same, x) = (same, ((c, e, n), x))
    later n (some q) t (same, h, x) = (same, ground arith, x)

-- All clients of the screens, in order.
abbrev pub on_screens : List Screen → List ℕ
on_screens [] = []
on_screens (scrn ∷ scrns) = scrn.clients ++ on_screens scrns

-- A failed search of `ps`, and any search of `qs` behind it.
Found-append :
    (s : S) (fd : ℕ) (ps qs : List ℕ) (o : Option ℕ) (t : S)
    → All (Other s fd) ps
    → Found s fd qs o t
    → Found s fd (ps ++ qs) o t
Found-append s fd ps qs none t a (same, x) = (same, All-append (Other s fd) ps qs a x)
Found-append s fd ps qs (some p) t a (same, h, x) = (same, ground (arith, has-append p ps qs), x)

Found-some :
    (s : S) (fd : ℕ) (ps qs : List ℕ) (p : ℕ) (t : S)
    → Found s fd ps (some p) t
    → Found s fd (ps ++ qs) (some p) t
Found-some s fd ps qs p t (same, h, x) = (same, ground (arith, has-append p ps qs), x)

All-split :
    (s : S) (ps qs : List ℕ) → All (Alive s) (ps ++ qs) → All (Alive s) ps × All (Alive s) qs
All-split s [] qs a = (tt, a)
All-split s (p ∷ ps) qs a = let r = All-split s ps qs a.1 in ((a.0, r.0), r.1)

find_on_screens-Found :
    (scrns : List Screen) (fd : ℕ) (s : S)
    → All (Alive s) (on_screens scrns)
    → Returns (find_on_screens scrns fd s) (Found s fd (on_screens scrns))
unfolding find_on_screens
find_on_screens-Found [] fd s a = (refl, tt)
find_on_screens-Found (scrn ∷ scrns) fd s a =
    let (l, r) = All-split s scrn.clients (on_screens scrns) a in
    Returns-bind (find_client scrn.clients fd) _ s _ _ (find_client-Found scrn.clients fd s l)
      (next (find_on_screens-Found scrns fd s r))
  where
    next :
        Returns (find_on_screens scrns fd s) (Found s fd (on_screens scrns))
        → (o : Option ℕ) (t : S) → Found s fd scrn.clients o t
        → Returns
            ((elim o as (λ _. Cmd (Option ℕ)) [
              | none ↦ find_on_screens scrns fd
              | some p ↦ pure (some p)
            ])
              t)
            (Found s fd (scrn.clients ++ on_screens scrns))
    next r none t (same, x) = rw same (
        Returns-mono (find_on_screens scrns fd s) _ _ r
          (λ o u y. Found-append s fd scrn.clients (on_screens scrns) o u x y))
    next r (some p) t f = Found-some s fd scrn.clients (on_screens scrns) p t f

-- If all clients of the screens and of the pending list are allocated, the search for a socket
-- changes nothing, reads no freed client, and finds one with that socket if there is one.
pub getclient-Found :
    (fd : ℕ) (s : S)
    → All (Alive s) (on_screens s.rest.main_screen ++ s.rest.pending)
    → Returns (getclient fd s) (Found s fd (on_screens s.rest.main_screen ++ s.rest.pending))
unfolding getclient
getclient-Found fd s a =
    let (l, r) = All-split s (on_screens s.rest.main_screen) s.rest.pending a in
    Returns-bind (find_on_screens s.rest.main_screen fd) _ s _ _
      (find_on_screens-Found s.rest.main_screen fd s l) (next r)
  where
    next :
        All (Alive s) s.rest.pending
        → (o : Option ℕ) (t : S) → Found s fd (on_screens s.rest.main_screen) o t
        → Returns
            ((elim o as (λ _. Cmd (Option ℕ)) [
              | none ↦ find_client t.rest.pending fd
              | some p ↦ pure (some p)
            ])
              t)
            (Found s fd (on_screens s.rest.main_screen ++ s.rest.pending))
    next r none t (same, x) = rw same (
        Returns-mono (find_client s.rest.pending fd s) _ _ (find_client-Found s.rest.pending fd s r)
          (λ o u y. Found-append s fd (on_screens s.rest.main_screen) s.rest.pending o u x y))
    next r (some p) t f = Found-some s fd (on_screens s.rest.main_screen) s.rest.pending p t f
