-- ===== src/Fb/Copy.antt =====
-- copy_to_fb: which bytes a copy writes, and where they come from.
use gtscreen.Prelude.{
  ℕ, zero, suc, ◌+◌, ◌-◌, ◌*◌, ◌/◌, ◌%◌, ◌^◌, ◌≤◌, ◌<◌, ◌≡◌, refl, inl, inr, Bool, true, false,
  ◌||◌, ◌&&◌, some, List, [], ◌∷◌, arith, ltb, leb, ◌==◌, All, Bool-cases,
}
use native.Mathlib.Nat.{mul-le-mul_right}
use gtscreen.Protocol.{Sync}
use gtscreen.Server.State.{Framebuffer}
use gtscreen.Server.Sync.{bad_region}
use gtscreen.Server.Sync.Damage.{inside, OnFb}
use gtscreen.Fb.{Block, column_start, column_end, copy_rows, copy_to_fb, pixl_align}

-- Whether some block writes the byte at `d` with the one at `s`.
abbrev pub copied : ℕ → ℕ → List Block → Bool
copied d s [] = false
copied d s (b ∷ bs) =
    (leb b.dst d && ltb d (b.dst + b.bytes) && (b.src + (d - b.dst) == s)) || copied d s bs

abbrev pub Within : ℕ → Block → Type 0
Within size b = b.dst + b.bytes ≤ size

-- The columns on the grid hold the region's, and lie on a framebuffer whose width is on the grid.
pub column_bounds :
    (fb : Framebuffer) (dmg : Sync)
    → fb.width % pixl_align ≡ 0
    → fb.width < 2 ^ 16
    → OnFb fb dmg
    → (column_start dmg ≤ dmg.xmin)
      × (dmg.xmax < column_end fb.width dmg)
      × (column_end fb.width dmg ≤ fb.width)
      × (column_start dmg % pixl_align ≡ 0)
      × (column_end fb.width dmg % pixl_align ≡ 0)
unfolding column_end
column_bounds fb dmg g w o = ground arith

-- A byte of the row at `p` and `q`, in a copy that does not wrap around.
row_copied :
    (p q x bytes d : ℕ)
    → x ≤ d
    → d < x + bytes
    → p + x < 2 ^ 32
    → q + x < 2 ^ 32
    → (leb ((p + x) % 2 ^ 32) (p + d)
        && ltb (p + d) ((p + x) % 2 ^ 32 + bytes)
        && ((q + x) % 2 ^ 32 + (p + d - (p + x) % 2 ^ 32) == (q + d)))
      ≡ true
row_copied p q x bytes d a b c e = ground arith

copy_rows-copied :
    (k first pitch width weight x bytes y d : ℕ)
    → first ≤ y
    → y < first + k
    → x ≤ d
    → d < x + bytes
    → y * pitch + x < 2 ^ 32
    → y * width * weight + x < 2 ^ 32
    → copied (y * pitch + d) (y * width * weight + d) (copy_rows k first pitch width weight x bytes)
      ≡ true
unfolding copy_rows
copy_rows-copied zero first pitch width weight x bytes y d a b c e f g = absurd (omega arith)
copy_rows-copied (suc k) first pitch width weight x bytes y d a b c e f g =
    elim (Bool-cases (first == y)) [
      | inl t ↦
          let same : first ≡ y = ground arith in
          rw (same, copied, row_copied (y * pitch) (y * width * weight) x bytes d c e f g) refl
      | inr n ↦
          let later =
            copy_rows-copied k (first + 1) pitch width weight x bytes y d (ground arith)
              (omega arith) c e f g in
          ground (arith, later)
    ]

copy_rows-Within :
    (k first pitch width weight x bytes height : ℕ)
    → first + k ≤ height
    → x + bytes ≤ pitch
    → All (Within (height * pitch)) (copy_rows k first pitch width weight x bytes)
unfolding copy_rows
copy_rows-Within zero first pitch width weight x bytes height a b = tt
copy_rows-Within (suc k) first pitch width weight x bytes height a b = (
  omega (arith, mul-le-mul_right pitch row),
  copy_rows-Within k (first + 1) pitch width weight x bytes height (omega arith) b,
)
  where
    row : first + 1 ≤ height
    row = omega arith

-- A framebuffer of 32 bits whose width is on the grid, with lines of `pitch` bytes, and a sprite of
-- that width: no offset wraps around.
abbrev pub Geometry : Framebuffer → ℕ → ℕ → Type 0
Geometry fb pitch width =
    (fb.bpp ≡ 32)
    × (fb.width % pixl_align ≡ 0)
    × (fb.width < 2 ^ 14)
    × (fb.height < 2 ^ 16)
    × (fb.width * 4 ≤ pitch)
    × (fb.height * pitch < 2 ^ 32)
    × (fb.height * width * 4 + pitch < 2 ^ 32)

-- What the arithmetic on uint16_t comes to, when nothing wraps around.
copy_to_fb-rows :
    (fb : Framebuffer) (pitch width : ℕ) (dmg : Sync)
    → fb.bpp ≡ 32
    → fb.width % pixl_align ≡ 0
    → fb.width < 2 ^ 14
    → fb.height < 2 ^ 16
    → OnFb fb dmg
    → copy_to_fb fb pitch width dmg
      ≡ some (
          copy_rows
            (dmg.ymax - dmg.ymin + 1)
            dmg.ymin
            pitch
            width
            4
            (column_start dmg * 4)
            ((column_end fb.width dmg - column_start dmg) * 4))
unfolding copy_to_fb
copy_to_fb-rows fb pitch width dmg b g w h o =
    let c = column_bounds fb dmg g (omega arith) o in
    let rows : (dmg.ymax - dmg.ymin + 1) % 2 ^ 16 ≡ dmg.ymax - dmg.ymin + 1 = omega arith in
    let n : ℕ = column_end fb.width dmg - column_start dmg in
    let pixels : (column_end fb.width dmg + 2 ^ 16 - column_start dmg) % 2 ^ 16 ≡ n = omega arith in
    let bytes : (n * 4) % 2 ^ 16 ≡ n * 4 = omega arith in
    let left : (column_start dmg * 4) % 2 ^ 16 ≡ column_start dmg * 4 = omega arith in
    let grid : ((n * 4) % 128 == 0) ≡ true = ground arith in
    let whole : (n * 4) / 128 * 128 ≡ n * 4 = omega arith in
    rw (b, rows, pixels, bytes, left, grid, whole) refl

-- The copy of a region on the framebuffer, for a framebuffer of 32 bits whose width is on the grid
-- and below 2 ^ 14, whose lines fit the pitch, and for which no offset wraps around: it succeeds, and
-- every block lies in the scanout buffer. Each of the four bytes b of each pixel (x, y) of the region
-- is written with byte (y * width + x) * 4 + b of the sprite's memory, which belongs to the sprite's
-- pixel (x, y) if the sprite has 32 bits and x is below its width.
pub copy_to_fb-copied :
    (fb : Framebuffer) (pitch width : ℕ) (dmg : Sync) (x y b : ℕ)
    → Geometry fb pitch width
    → OnFb fb dmg
    → inside x y dmg ≡ true
    → b < 4
    → (blocks : List Block) × (copy_to_fb fb pitch width dmg ≡ some blocks)
      × (copied (y * pitch + (x * 4 + b)) (y * width * 4 + (x * 4 + b)) blocks ≡ true)
      × All (Within (fb.height * pitch)) blocks
unfolding copy_to_fb
copy_to_fb-copied fb pitch width dmg x y b geo o i four =
    let (bits, g, w, h, fits, small, small') = geo in
    let c = column_bounds fb dmg g (omega arith) o in
    let row : y + 1 ≤ fb.height = ground arith in
    (
      _,
      copy_to_fb-rows fb pitch width dmg bits g w h o,
      copy_rows-copied (dmg.ymax - dmg.ymin + 1) dmg.ymin pitch width 4 (column_start dmg * 4)
          ((column_end fb.width dmg - column_start dmg) * 4) y (x * 4 + b) (ground arith)
          (ground arith) (ground arith) (ground arith) (ground (arith, mul-le-mul_right pitch row))
          (wide row),
      copy_rows-Within (dmg.ymax - dmg.ymin + 1) dmg.ymin pitch width 4 (column_start dmg * 4)
          ((column_end fb.width dmg - column_start dmg) * 4) fb.height (ground arith)
          (ground arith),
    )
  where
    wide : y + 1 ≤ fb.height → y * width * 4 + column_start dmg * 4 < 2 ^ 32
    wide row =
        let (b, g, w, h, fits, small, small') = geo in
        let start : column_start dmg ≤ fb.width = ground arith in
        let rows : y * width * 4 ≤ fb.height * width * 4 =
          mul-le-mul_right 4 (mul-le-mul_right width (omega (arith, row))) in
        omega (arith, start, rows, small', fits)

-- A region that the server accepts may reach below the client's sprite, because it is checked
-- against the framebuffer: under the same conditions on the framebuffer its copy then succeeds too,
-- and some byte that it copies is read from behind the end of the sprite.
pub copy_to_fb_overruns :
    (fb : Framebuffer) (pitch width height : ℕ) (dmg : Sync)
    → Geometry fb pitch width
    → bad_region fb dmg ≡ false
    → height ≤ dmg.ymax
    → (blocks : List Block) × (copy_to_fb fb pitch width dmg ≡ some blocks)
      × (d : ℕ) × (s : ℕ) × (copied d s blocks ≡ true)
      × (height * width * 4 ≤ s)
copy_to_fb_overruns fb pitch width height dmg geo accepted below =
    let o : OnFb fb dmg = ground arith in
    let (blocks, e, c, _) =
      copy_to_fb-copied fb pitch width dmg dmg.xmin dmg.ymax 0 geo o (ground arith)
        (ground arith) in
    let rows : height * width * 4 ≤ dmg.ymax * width * 4 =
      mul-le-mul_right 4 (mul-le-mul_right width below) in
    (
      blocks,
      e,
      dmg.ymax * pitch + (dmg.xmin * 4 + 0),
      dmg.ymax * width * 4 + (dmg.xmin * 4 + 0),
      c,
      omega arith,
    )
