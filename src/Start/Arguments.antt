-- ===== src/Start/Arguments.antt =====
-- main.c, read_args: which arguments let the server start.
use gtscreen.Prelude.{
  ℕ, zero, suc, ◌≡◌, refl, inl, inr, Bool, true, false, ◌||◌, List, [], ◌∷◌, arith, Bool-cases,
  length, ◌<◌, All,
}
use gtscreen.Start.{Text, strncmp, read_args, go, arg_printmodes, arg_inactive_vt}

-- With a bound above the length of the first text, strncmp is equality.
strncmp-exact : (n : ℕ) (a b : Text) → length a < n → strncmp n a b ≡ true → a ≡ b
unfolding strncmp
strncmp-exact zero a b h e = elim h [ ]
strncmp-exact (suc n) [] [] h e = refl
strncmp-exact (suc n) [] (y ∷ b) h e = cc
strncmp-exact (suc n) (x ∷ a) [] h e = cc
strncmp-exact (suc n) (x ∷ a) (y ∷ b) h e = ground (arith, strncmp-exact n a b)

-- Some argument was given.
abbrev pub given : List Text → Bool
given [] = false
given (_ ∷ _) = true

-- If the server goes on after its arguments, every argument is "--inactive-vt" in full, and the
-- terminal is taken as inactive if it was so before or there is an argument.
pub read_args-Exact :
    (inactive : Bool) (args : List Text) (b : Bool)
    → read_args inactive args ≡ go b
    → All (λ a. arg_inactive_vt ≡ a) args × (b ≡ (inactive || given args))
unfolding read_args
read_args-Exact inactive [] b h = (tt, ground arith)
read_args-Exact inactive (a ∷ rest) b h = elim (Bool-cases (strncmp 13 arg_printmodes a)) [
  | inl modes ↦ absurd (ground arith)
  | inr other ↦ elim (Bool-cases (strncmp 14 arg_inactive_vt a)) [
    | inl same ↦
        let r = read_args-Exact true rest b (ground arith) in
        ((strncmp-exact 14 arg_inactive_vt a (omega arith) same, r.0), ground (arith, r.1))
    | inr unknown ↦ absurd (ground arith)
  ]
]
