-- ===== src/Server/Sync/Request.antt =====
-- spr16_server_sync and server_add_sync_client.
use gtscreen.Prelude.{
  ℕ, ◌≤◌, ◌<◌, ◌≡◌, refl, ◌⊎◌, inl, inr, true, false, ◌||◌, Option, none, some, List, [], ◌∷◌, ◌++◌,
  arith, length, All, Bool-cases, ◌>>=◌, bit_or, Option-cases, Status, failure, Returns, ok,
}
use gtscreen.Protocol.{Sync, dmg_slots}
use gtscreen.Server.Sync.{
  take_slot, add_sync_client, bad_region, sync_flagged, sync_region, server_sync, accumulate_dmg,
}
use gtscreen.Server.Sync.Damage.{covered, inside, OnFb, accumulate_dmg-covered, accumulate_dmg-OnFb}
use gtscreen.Server.State.{Client, update, Framebuffer, S}

-- The clients waiting for a synchronisation.
abbrev pub waiting : List (Option ℕ) → List ℕ
waiting [] = []
waiting (none ∷ slots) = waiting slots
waiting (some p ∷ slots) = p ∷ waiting slots

-- No empty slot before a filled one.
abbrev pub Dense : List (Option ℕ) → Type 0
Dense [] = Unit {0}
Dense (none ∷ slots) = (waiting slots ≡ []) × Dense slots
Dense (some p ∷ slots) = Dense slots

-- A region on the framebuffer is the one that passes the test.
bad_region-OnFb : (fb : Framebuffer) (r : Sync) → bad_region fb r ≡ false → OnFb fb r
bad_region-OnFb fb r h = ground arith

-- A dense array stays dense: the new client is the last one.
pub take_slot-Dense :
    (slots slots' : List (Option ℕ)) (p : ℕ)
    → Dense slots
    → take_slot slots p ≡ some slots'
    → Dense slots' × (waiting slots' ≡ waiting slots ++ p ∷ []) × (length slots' ≡ length slots)
unfolding take_slot
take_slot-Dense [] slots' p d e = ground arith
take_slot-Dense (none ∷ slots) slots' p d e = ground arith
take_slot-Dense (some q ∷ slots) slots' p d e = elim (Option-cases (take_slot slots p)) [
  | inl full ↦ ground (arith)
  | inr (rest, k) ↦ ground (arith, take_slot-Dense slots rest p d k)
]

-- What spr16_server_sync needs of a client, and keeps.
abbrev pub Damaged : Framebuffer → Client → Type 0
Damaged fb c = (length c.dmg ≤ dmg_slots) × All (OnFb fb) c.dmg

abbrev pub Live : S → ℕ → (Client → Type 0) → Type 0
Live s p P = (c : Client) × (s.rest.clients p ≡ some c) × P c

-- A region that is not on the framebuffer, or has its corners out of order, is refused, and nothing
-- at all changes.
pub server_sync-refused :
    (p flags : ℕ) (region : Sync) (s : S)
    → ¬ OnFb s.rest.fb region
    → server_sync p flags region s ≡ ok failure s
unfolding server_sync
server_sync-refused p flags region s out = elim (Bool-cases (bad_region s.rest.fb region)) [
  | inl bad ↦ rw bad refl
  | inr good ↦ absurd (out (bad_region-OnFb s.rest.fb region good))
]

-- What a request leaves of a client `c`: its damage, and whether it waits for a synchronisation.
abbrev pub Kept : Client → S → ℕ → ℕ → Status → S → Type 0
Kept c s p flags r t =
    (t.rest.fb ≡ s.rest.fb)
    × Live t p (λ d. (d.dmg ≡ c.dmg) × ((r ≡ failure) ⊎ (flags ≡ 0) ⊎ (d.syncing ≡ true)))

add_sync_client-Kept :
    (p flags : ℕ) (c : Client) (s : S)
    → s.rest.clients p ≡ some c
    → Returns (add_sync_client p s) (Kept c s p flags)
unfolding add_sync_client
add_sync_client-Kept p flags c s e = elim (Bool-cases c.syncing) [
  | inl t ↦ rw (add_sync_client, ◌>>=◌, e) (simp t (refl, (c, e, (refl, inr (inr t)))))
  | inr f ↦ elim (Option-cases (take_slot s.rest.sync_clients p)) [
    | inl full ↦ rw (add_sync_client, ◌>>=◌, e) (simp (f, full) (refl, (c, e, (refl, inl refl))))
    | inr (rest, k) ↦
        rw (add_sync_client, ◌>>=◌, e)
          (simp (f, k) (refl, (record c { syncing = true }, ground arith, (refl, inr (inr refl)))))
  ]
]

sync_flagged-Kept :
    (p flags : ℕ) (c : Client) (s : S)
    → s.rest.clients p ≡ some c
    → Returns (sync_flagged p c flags s) (Kept c s p flags)
unfolding sync_flagged
sync_flagged-Kept p flags c s e =
    let c' : Client = record c { sync_flags = bit_or c.sync_flags flags } in
    let s' : S = record s {
      rest = record (s.rest) { clients = update s.rest.clients p (some c') };
    } in
    ground (arith, add_sync_client-Kept p flags c' s')

-- The client `p` after a request that holds the pixel (x, y).
abbrev pub Served : ℕ → ℕ → ℕ → ℕ → Status → S → Type 0
Served x y p flags r t = Live t p (λ d.
    Damaged t.rest.fb d
    × (covered x y d.dmg ≡ true)
    × ((r ≡ failure) ⊎ (flags ≡ 0) ⊎ (d.syncing ≡ true)))

-- A request on the framebuffer, of a client with memory and at most 32 regions, all on the
-- framebuffer: it ends without a fault, and the client again has at most 32 regions, all on the
-- framebuffer, in which lies each pixel (x, y) of its regions before and of the request. If it
-- succeeds, with flags, the client is marked as waiting for a synchronisation.
pub server_sync-Damaged :
    (p flags : ℕ) (region : Sync) (s : S) (c : Client) (x y : ℕ)
    → s.rest.clients p ≡ some c
    → Damaged s.rest.fb c
    → OnFb s.rest.fb region
    → 0 < s.rest.fb.addr
    → 0 < c.shmem_addr
    → (covered x y c.dmg || inside x y region) ≡ true
    → Returns (server_sync p flags region s) (Served x y p flags)
unfolding server_sync sync_region
server_sync-Damaged p flags region s c x y e d o fb mem cov =
    let c' : Client = record c { dmg = accumulate_dmg c.dmg region } in
    let s' : S = record s {
      rest = record (s.rest) { clients = update s.rest.clients p (some c') };
    } in
    ground (
      arith,
      sync_flagged-Kept p flags c' s',
      accumulate_dmg-covered c.dmg region x y d.0 cov,
      accumulate_dmg-OnFb s.rest.fb c.dmg region d.1 o,
    )
