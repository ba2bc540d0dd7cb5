-- ===== src/Prelude/Bits.antt =====
-- The binary digits of a number, and what `|`, `& ~` and `&` with one bit do to them.
use Prim.Native.Nat.{
  ℕ, zero, suc, ◌+◌, ◌-◌, ◌*◌, ◌/◌, ◌%◌, ◌^◌, ◌≤◌, ◌<◌, min, max, bit_and, bit_or, digits,
  bit_and-bitwise, bit_or-bitwise,
}
use mathlib.Core.Path.{◌≡◌, refl}
use native.Mathlib.Nat.{le_refl, pow-suc, one-le-pow}
use native.Mathlib.Omega.{arith}
use gtscreen.Prelude.Tests.{◌==◌, if◌then◌else◌}

-- Digit `k` of `n`.
unfoldable pub digit : ℕ → ℕ → ℕ
digit n zero = n % 2
digit n (suc k) = digit (n / 2) k

digit-zero : (k : ℕ) → digit 0 k ≡ 0
unfolding digit
digit-zero zero = refl
digit-zero (suc k) = digit-zero k

-- Digit by digit, the recursions of `|` and `&` take the maximum and the minimum.
digit-maxima :
    (n a b k : ℕ) → a ≤ n → digit (digits (λ y. y) max n a b) k ≡ max (digit a k) (digit b k)
unfolding digit
digit-maxima zero zero b k h = rw (digit-zero k) (omega arith)
digit-maxima (suc n) zero b k h = rw (digit-zero k) (omega arith)
digit-maxima zero (suc a) b k h = absurd (omega arith)
digit-maxima (suc n) (suc a) b zero h = omega arith
digit-maxima (suc n) (suc a) b (suc k) h =
    let rest = digits (λ y. y) max n (suc a / 2) (b / 2) in
    let halved : (rest * 2 + max (suc a % 2) (b % 2)) / 2 ≡ rest = omega arith in
    rw halved (digit-maxima n (suc a / 2) (b / 2) k (omega arith))

digit-minima :
    (n a b k : ℕ) → a ≤ n → digit (digits (λ y. 0) min n a b) k ≡ min (digit a k) (digit b k)
unfolding digit
digit-minima zero zero b k h = rw (digit-zero k) (omega arith)
digit-minima (suc n) zero b k h = rw (digit-zero k) (omega arith)
digit-minima zero (suc a) b k h = absurd (omega arith)
digit-minima (suc n) (suc a) b zero h = omega arith
digit-minima (suc n) (suc a) b (suc k) h =
    let rest = digits (λ y. 0) min n (suc a / 2) (b / 2) in
    let halved : (rest * 2 + min (suc a % 2) (b % 2)) / 2 ≡ rest = omega arith in
    rw halved (digit-minima n (suc a / 2) (b / 2) k (omega arith))

pub digit-bit_or : (k a b : ℕ) → digit (bit_or a b) k ≡ max (digit a k) (digit b k)
digit-bit_or k a b = rw (bit_or-bitwise a b) (digit-maxima a a b k (le_refl a))

pub digit-bit_and : (k a b : ℕ) → digit (bit_and a b) k ≡ min (digit a k) (digit b k)
digit-bit_and k a b = rw (bit_and-bitwise a b) (digit-minima a a b k (le_refl a))

-- The digits of `1 << b`.
pub digit-pow : (b k : ℕ) → digit (2 ^ b) k ≡ (if k == b then 1 else 0)
unfolding digit
digit-pow zero zero = refl
digit-pow zero (suc k) = ground (arith, digit-zero k)
digit-pow (suc b) zero = ground (arith, pow-suc 2 b)
digit-pow (suc b) (suc k) =
    let halved : 2 ^ suc b / 2 ≡ 2 ^ b = omega (arith, pow-suc 2 b) in
    rw halved (ground (arith, digit-pow b k))

pow_lt : (b w : ℕ) → b < w → 2 ^ b < 2 ^ w
pow_lt b zero h = elim h [ ]
pow_lt zero (suc w) h = omega (arith, pow-suc 2 w, one-le-pow w 2)
pow_lt (suc b) (suc w) h = omega (arith, pow-suc 2 w, pow-suc 2 b, pow_lt b w (omega arith))

digit-ones : (w k : ℕ) → k < w → digit (2 ^ w - 1) k ≡ 1
unfolding digit
digit-ones zero k h = elim h [ ]
digit-ones (suc w) zero h = omega (arith, pow-suc 2 w, one-le-pow w 2)
digit-ones (suc w) (suc k) h =
    let halved : (2 ^ suc w - 1) / 2 ≡ 2 ^ w - 1 = omega (arith, pow-suc 2 w, one-le-pow w 2) in
    rw halved (digit-ones w k (omega arith))

-- The digits of `~(1 << b)` in a word of `w` bits.
pub digit-complement :
    (w b k : ℕ) → b < w → k < w → digit (2 ^ w - 1 - 2 ^ b) k ≡ (if k == b then 0 else 1)
unfolding digit
digit-complement zero b k hb hk = elim hb [ ]
digit-complement (suc w) zero zero hb hk = omega (arith, pow-suc 2 w, one-le-pow w 2)
digit-complement (suc w) zero (suc k) hb hk =
    let halved : (2 ^ suc w - 1 - 1) / 2 ≡ 2 ^ w - 1 = omega (arith, pow-suc 2 w, one-le-pow w 2) in
    rw halved (ground (arith, digit-ones w k (omega arith)))
digit-complement (suc w) (suc b) zero hb hk =
    let odd : (2 ^ suc w - 1 - 2 ^ suc b) % 2 ≡ 1 =
      omega (arith, pow-suc 2 w, pow-suc 2 b, pow_lt b w (omega arith)) in
    ground arith
digit-complement (suc w) (suc b) (suc k) hb hk =
    let halved : (2 ^ suc w - 1 - 2 ^ suc b) / 2 ≡ 2 ^ w - 1 - 2 ^ b =
      omega (arith, pow-suc 2 w, pow-suc 2 b) in
    rw halved (ground (arith, digit-complement w b k (omega arith) (omega arith)))

minima-zero : (n a : ℕ) → digits (λ y. 0) min n a 0 ≡ 0
minima-zero zero zero = refl
minima-zero (suc n) zero = refl
minima-zero zero (suc a) = refl
minima-zero (suc n) (suc a) = omega (arith, minima-zero n (suc a / 2))

minima-pow : (n a k : ℕ) → a ≤ n → digits (λ y. 0) min n a (2 ^ k) ≡ digit a k * 2 ^ k
unfolding digit
minima-pow zero zero k h = rw (digit-zero k) (omega arith)
minima-pow (suc n) zero k h = rw (digit-zero k) (omega arith)
minima-pow zero (suc a) k h = absurd (omega arith)
minima-pow (suc n) (suc a) zero h = omega (arith, minima-zero n (suc a / 2))
minima-pow (suc n) (suc a) (suc k) h =
    let halved : 2 ^ suc k / 2 ≡ 2 ^ k = omega (arith, pow-suc 2 k) in
    let even : 2 ^ suc k % 2 ≡ 0 = omega (arith, pow-suc 2 k) in
    let twice : digit (suc a / 2) k * 2 ^ suc k ≡ digit (suc a / 2) k * 2 ^ k * 2 =
      rw (pow-suc 2 k) (grind arith) in
    rw (halved, even, minima-pow n (suc a / 2) k (omega arith), twice) (omega arith)

-- `n & (1 << k)` holds digit `k` of `n`, in its place.
pub bit_and-pow : (k n : ℕ) → bit_and n (2 ^ k) ≡ digit n k * 2 ^ k
bit_and-pow k n = rw (bit_and-bitwise n (2 ^ k)) (minima-pow n n k (le_refl n))

times_pos : (d p : ℕ) → 1 ≤ p → (d * p == 0) ≡ (d == 0)
times_pos zero p h = ground arith
times_pos (suc d) p h = let positive : 1 ≤ suc d * p = grind arith in ground arith

-- The test `n & (1 << k)`.
pub bit_and-pow_test : (k n : ℕ) → (bit_and n (2 ^ k) == 0) ≡ (digit n k == 0)
bit_and-pow_test k n =
    rw (bit_and-pow k n) (times_pos (digit n k) (2 ^ k) (one-le-pow k 2 (omega arith)))
