-- ===== src/Input/Discover/Environment.antt =====
-- platform/linux/input.c, check_environ: which values of the environment name a device.
use gtscreen.Prelude.{
  ℕ, zero, suc, ◌≤◌, ◌<◌, ◌≡◌, refl, if_true, if_false, ◌⊎◌, inl, inr, Bool, true, false, none,
  some, [], ◌∷◌, ◌++◌, arith, Bool-cases, length, All,
}
use gtscreen.Start.{Text, strncmp, is_digit}
use gtscreen.Input.Discover.{devpfx, devdir, device_number, after_prefix, check_environ}

-- A device number: one to three digits.
pub record IsNumber (d : Text) : Type 0 where
  pub some_digit : 0 < length d
  pub few_digits : length d ≤ 3
  pub digits : All (λ c. is_digit c ≡ true) d

number_of :
    (left : ℕ) (first : Bool) (s : Text)
    → device_number left first s ≡ true
    → (length s < left) × All (λ c. is_digit c ≡ true) s
unfolding device_number
number_of zero first s h = absurd (ground arith)
number_of (suc left) first [] h = (omega arith, tt)
number_of (suc left) first (c ∷ s) h =
    let r = number_of left false s (ground arith) in (omega (arith, r.0), (ground arith, r.1))

number_made :
    (left : ℕ) (s : Text)
    → length s < left
    → All (λ c. is_digit c ≡ true) s
    → device_number left false s ≡ true
unfolding device_number
number_made zero s h d = elim h [ ]
number_made (suc left) [] h d = refl
number_made (suc left) (c ∷ s) h d = ground (arith, number_made left s (omega arith) d.1, d.0)

first-IsNumber : (s : Text) → device_number 4 true s ≡ true → IsNumber s
unfolding device_number
first-IsNumber [] h = absurd (ground arith)
first-IsNumber (c ∷ s) h =
    let r = number_of 4 true (c ∷ s) h in
    record { some_digit = omega arith; few_digits = omega (arith, r.0); digits = r.1 }

number-IsNumber : (s : Text) → IsNumber s → device_number 4 true s ≡ true
unfolding device_number
number-IsNumber [] n = absurd (omega (arith, n.some_digit))
number-IsNumber (c ∷ s) n =
    ground (arith, number_made 3 s (omega (arith, n.few_digits)) n.digits.1, n.digits.0)

-- A value of the environment that is "event" with something behind it names a device exactly if that
-- is a number of one to three digits: then the path is the value in /dev/input, and otherwise the
-- variable is passed over.
pub check_environ-Exact :
    (d : Text)
    → (IsNumber d × (check_environ (some (devpfx ++ d)) ≡ some (devdir ++ 47 ∷ devpfx ++ d)))
      ⊎ ((¬ IsNumber d) × (check_environ (some (devpfx ++ d)) ≡ none))
unfolding check_environ strncmp after_prefix
check_environ-Exact d = elim (Bool-cases (device_number 4 true d)) [
  | inl number ↦ inl (first-IsNumber d number, if_true _ _ number)
  | inr other ↦ inr (λ n. absurd (ground (arith, number-IsNumber d n)), if_false _ _ other)
]
