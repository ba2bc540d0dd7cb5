-- ===== src/Server/Update/Slots.antt =====
-- The array of waiting clients in a round of the main loop.
use gtscreen.Prelude.{ℕ, ◌≡◌, refl, Option, none, some, List, [], ◌∷◌, arith}
use gtscreen.Server.Sync.Request.{waiting, Dense}
use gtscreen.Server.Update.{filled, emptied}

-- In a dense array, which every request keeps, a round reaches all waiting clients in their order,
-- and leaves none waiting.
pub filled-waiting :
    (slots : List (Option ℕ))
    → Dense slots
    → (filled slots ≡ waiting slots) × (waiting (emptied slots) ≡ []) × Dense (emptied slots)
unfolding filled emptied
filled-waiting [] d = (refl, refl, tt)
filled-waiting (none ∷ slots) d = ground arith
filled-waiting (some p ∷ slots) d = ground (arith, filled-waiting slots d)
