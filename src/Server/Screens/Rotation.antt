-- ===== src/Server/Screens/Rotation.antt =====
-- The order of the screens under spr16_server_main_screen_switch.
use gtscreen.Prelude.{
  ℕ, zero, suc, ◌≡◌, ap, ◌∙◌, sym, List, [], ◌∷◌, ◌++◌, length, append_assoc, append-nil,
}
use gtscreen.Server.State.{Screen}
use gtscreen.Server.Screens.{rotate}

-- `k` switches to the next screen.
abbrev pub rotations : ℕ → List Screen → List Screen
rotations zero scrns = scrns
rotations (suc k) scrns = rotations k (rotate scrns)

rotations-append : (xs ys : List Screen) → rotations (length xs) (xs ++ ys) ≡ ys ++ xs
unfolding rotate
rotations-append [] ys = sym (append-nil ys)
rotations-append (x ∷ xs) ys =
    ap (rotations (length xs)) (append_assoc xs ys (x ∷ []))
    ∙ rotations-append xs (ys ++ x ∷ [])
    ∙ append_assoc ys (x ∷ []) xs

-- Switching as often as there are screens leads through all of them and back: for each prefix of
-- the list, so many switches move exactly it behind the others, and a whole round changes nothing.
pub rotations_cycle :
    (xs ys : List Screen)
    → (rotations (length xs) (xs ++ ys) ≡ ys ++ xs)
      × (rotations (length ys) (rotations (length xs) (xs ++ ys)) ≡ xs ++ ys)
rotations_cycle xs ys =
    (rotations-append xs ys, rw (rotations-append xs ys) (rotations-append ys xs))
