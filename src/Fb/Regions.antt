-- ===== src/Fb/Regions.antt =====
-- sync_dmg_to_fb: all damaged regions of a client.
use gtscreen.Prelude.{
  ℕ, ◌+◌, ◌*◌, ◌<◌, ◌≡◌, refl, true, false, ◌||◌, some, List, [], ◌∷◌, ◌++◌, arith, All, All-append,
  Bool-cases, inl, inr, Status, success, Returns, ◌>>=◌,
}
use gtscreen.Protocol.{Sync}
use gtscreen.Server.State.{Client, Framebuffer, S, update_same}
use gtscreen.Server.Sprite.{is_direct}
use gtscreen.Server.Sync.Damage.{inside, covered, OnFb}
use gtscreen.Fb.{Block, copy_all, sync_dmg_to_fb}
use gtscreen.Fb.Copy.{copied, Within, Geometry, copy_to_fb-copied}

copied-append :
    (d s : ℕ) (bs cs : List Block) → copied d s (bs ++ cs) ≡ (copied d s bs || copied d s cs)
copied-append d s [] cs = refl
copied-append d s (b ∷ bs) cs = ground (arith, copied-append d s bs cs)

-- The copies succeed, and byte `b` of each pixel of the regions is written.
abbrev pub Shown : Framebuffer → ℕ → ℕ → ℕ → ℕ → ℕ → List Block × Status → Type 0
Shown fb pitch width x y b r =
    (r.1 ≡ success)
    × (copied (y * pitch + (x * 4 + b)) (y * width * 4 + (x * 4 + b)) r.0 ≡ true)
    × All (Within (fb.height * pitch)) r.0

module _ (fb : Framebuffer) (pitch width : ℕ) (geo : Geometry fb pitch width) where
  copy_all-Within :
      (dmgs : List Sync)
      → All (OnFb fb) dmgs
      → let r = copy_all fb pitch width dmgs in
        (r.1 ≡ success) × All (Within (fb.height * pitch)) r.0
  unfolding copy_all
  copy_all-Within [] a = (refl, tt)
  copy_all-Within (dmg ∷ dmgs) (o, a) =
      let (blocks, e, c, w) =
        copy_to_fb-copied fb pitch width dmg dmg.xmin dmg.ymin 0 geo o (ground arith)
          (ground arith) in
      let rest = copy_all-Within dmgs a in
      rw (copy_all, e) (rest.0, All-append (Within (fb.height * pitch)) blocks _ w rest.1)

  pub copy_all-Shown :
      (dmgs : List Sync) (x y b : ℕ)
      → All (OnFb fb) dmgs
      → covered x y dmgs ≡ true
      → b < 4
      → Shown fb pitch width x y b (copy_all fb pitch width dmgs)
  unfolding copy_all
  copy_all-Shown [] x y b a c four = ground arith
  copy_all-Shown (dmg ∷ dmgs) x y b (o, a) c four = elim (Bool-cases (inside x y dmg)) [
    | inl i ↦
        let (blocks, e, hit, w) = copy_to_fb-copied fb pitch width dmg x y b geo o i four in
        let rest = copy_all-Within dmgs a in
        rw (copy_all, e)
          (
            rest.0,
            ground (
              arith,
              copied-append (y * pitch + (x * 4 + b)) (y * width * 4 + (x * 4 + b)) blocks
                  (copy_all fb pitch width dmgs).0,
              hit,
            ),
            All-append (Within (fb.height * pitch)) blocks _ w rest.1,
          )
    | inr n ↦
        let (blocks, e, hit, w) =
          copy_to_fb-copied fb pitch width dmg dmg.xmin dmg.ymin 0 geo o (ground arith)
            (ground arith) in
        let rest = copy_all-Shown dmgs x y b a (ground arith) four in
        rw (copy_all, e)
          (
            rest.0,
            ground (
              arith,
              copied-append (y * pitch + (x * 4 + b)) (y * width * 4 + (x * 4 + b)) blocks
                  (copy_all fb pitch width dmgs).0,
              rest.1,
            ),
            All-append (Within (fb.height * pitch)) blocks _ w rest.2,
          )
  ]

-- The synchronisation of a client that has damage, all of it on the framebuffer, and does not draw
-- into the scanout buffer itself. For a framebuffer of 32 bits whose width is on the grid and below
-- 2 ^ 14, whose lines fit the pitch, and for which no offset wraps around, it ends without a fault:
-- every block lies in the scanout buffer, and no damage is left. Each of the four bytes b of each
-- pixel (x, y) of the regions is written with byte (y * width + x) * 4 + b of the client's memory,
-- which belongs to its pixel (x, y) if its sprite has 32 bits and x is below the sprite's width.
pub sync_dmg_to_fb-Shown :
    (p : ℕ) (c : Client) (s : S) (x y b : ℕ)
    → s.rest.clients p ≡ some c
    → is_direct c.flags ≡ false
    → Geometry s.rest.fb s.rest.pitch c.width
    → All (OnFb s.rest.fb) c.dmg
    → covered x y c.dmg ≡ true
    → b < 4
    → Returns (sync_dmg_to_fb p s) (λ r t.
      Shown s.rest.fb s.rest.pitch c.width x y b r
      × (t.rest.clients p ≡ some (record c { dmg = [] })))
unfolding sync_dmg_to_fb
sync_dmg_to_fb-Shown p c s x y b e direct geo a cov four =
    let shown = copy_all-Shown s.rest.fb s.rest.pitch c.width geo c.dmg x y b a cov four in
    rw (sync_dmg_to_fb, ◌>>=◌, e)
      (simp direct (simp shown.0 ((refl, shown.1, shown.2), update_same s.rest.clients p (some _))))
