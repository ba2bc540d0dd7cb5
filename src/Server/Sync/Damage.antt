-- ===== src/Server/Sync/Damage.antt =====
-- accumulate_dmg: the regions of a client, and the pixels that they hold.
use gtscreen.Prelude.{
  ℕ, zero, suc, ◌≤◌, ◌<◌, ◌≡◌, refl, inl, inr, Bool, true, false, ◌||◌, ◌&&◌, List, [], ◌∷◌, ◌++◌,
  arith, ltb, leb, length, set, get_or, All, All-append, length-append, Bool-cases,
}
use gtscreen.Protocol.{Sync, dmg_slots}
use gtscreen.Server.Sync.{merge, accumulate_dmg}
use gtscreen.Server.State.{Framebuffer}

-- Whether a region, or one of several, holds the pixel (x, y).
abbrev pub inside : ℕ → ℕ → Sync → Bool
inside x y r = leb r.xmin x && leb x r.xmax && leb r.ymin y && leb y r.ymax

abbrev pub covered : ℕ → ℕ → List Sync → Bool
covered x y [] = false
covered x y (r ∷ rs) = inside x y r || covered x y rs

-- A region on the framebuffer, its corners in order.
abbrev pub OnFb : Framebuffer → Sync → Type 0
OnFb fb r = (r.xmin ≤ r.xmax) × (r.ymin ≤ r.ymax) × (r.xmax < fb.width) × (r.ymax < fb.height)

merge-inside :
    (x y : ℕ) (a b : Sync) → (inside x y a || inside x y b) ≡ true → inside x y (merge a b) ≡ true
merge-inside x y a b h = ground arith

merge-OnFb : (fb : Framebuffer) (a b : Sync) → OnFb fb a → OnFb fb b → OnFb fb (merge a b)
merge-OnFb fb a b ha hb = ground arith

covered-append :
    (x y : ℕ) (rs : List Sync) (r : Sync)
    → covered x y (rs ++ r ∷ []) ≡ (covered x y rs || inside x y r)
covered-append x y [] r = ground arith
covered-append x y (s ∷ rs) r = ground (arith, covered-append x y rs r)

set-covered :
    (x y : ℕ) (rs : List Sync) (i : ℕ) (r : Sync)
    → i < length rs
    → (covered x y rs || inside x y r) ≡ true
    → covered x y (set rs i (merge (get_or rs i r) r)) ≡ true
set-covered x y [] i r l h = absurd (omega arith)
set-covered x y (s ∷ rs) zero r l h = ground (arith, merge-inside x y s r)
set-covered x y (s ∷ rs) (suc i) r l h = elim (Bool-cases (inside x y s)) [
  | inl t ↦ rw t refl
  | inr f ↦ rw f (set-covered x y rs i r (omega arith) (rw f at h))
]

length-set : (rs : List Sync) (i : ℕ) (r : Sync) → length (set rs i r) ≡ length rs
length-set [] i r = refl
length-set (s ∷ rs) zero r = refl
length-set (s ∷ rs) (suc i) r = omega (arith, length-set rs i r)

set-OnFb :
    (fb : Framebuffer) (rs : List Sync) (i : ℕ) (r : Sync)
    → All (OnFb fb) rs
    → OnFb fb r
    → All (OnFb fb) (set rs i (merge (get_or rs i r) r))
set-OnFb fb [] i r a h = tt
set-OnFb fb (s ∷ rs) zero r a h = (merge-OnFb fb s r a.0 h, a.1)
set-OnFb fb (s ∷ rs) (suc i) r a h = (a.0, set-OnFb fb rs i r a.1 h)

-- No damage is lost: with at most 32 regions in use, a pixel of them or of the new region is in one
-- of the regions afterwards, and these are still at most 32.
pub accumulate_dmg-covered :
    (dmgs : List Sync) (dmg : Sync) (x y : ℕ)
    → length dmgs ≤ dmg_slots
    → (covered x y dmgs || inside x y dmg) ≡ true
    → (covered x y (accumulate_dmg dmgs dmg) ≡ true)
      × (length (accumulate_dmg dmgs dmg) ≤ dmg_slots)
unfolding accumulate_dmg
accumulate_dmg-covered dmgs dmg x y l h = elim (Bool-cases (ltb (length dmgs) dmg_slots)) [
  | inl t ↦ rw t (rw (covered-append x y dmgs dmg) h, ground (arith, length-append dmgs (dmg ∷ [])))
  | inr f ↦ rw f (
    set-covered x y dmgs 31 dmg (ground arith) h,
    ground (arith, length-set dmgs 31 (merge (get_or dmgs 31 dmg) dmg)),
  )
]

-- Regions on the framebuffer stay there.
pub accumulate_dmg-OnFb :
    (fb : Framebuffer) (dmgs : List Sync) (dmg : Sync)
    → All (OnFb fb) dmgs
    → OnFb fb dmg
    → All (OnFb fb) (accumulate_dmg dmgs dmg)
unfolding accumulate_dmg
accumulate_dmg-OnFb fb dmgs dmg a h = elim (Bool-cases (ltb (length dmgs) dmg_slots)) [
  | inl t ↦ rw t (All-append (OnFb fb) dmgs (dmg ∷ []) a (h, tt))
  | inr f ↦ rw f (set-OnFb fb dmgs 31 dmg a h)
]
