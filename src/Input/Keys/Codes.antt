-- ===== src/Input/Keys/Codes.antt =====
-- platform/linux/input.c: the codes that evdev_translate_keycode sends.
use gtscreen.Prelude.{
  ℕ, ◌<◌, ◌≡◌, refl, inl, inr, Bool, true, not, ◌&&◌, none, some, List, [], ◌∷◌, ◌++◌, arith, ltb,
  Option-cases, has, success,
}
use gtscreen.Protocol.{Input}
use gtscreen.Server.State.{Device}
use gtscreen.Input.Kernel.{btn_touch}
use gtscreen.Input.Keycodes.{keycode_count, keycode_contact}
use gtscreen.Input.Keymap.{keymap, buttonmap}
use gtscreen.Input.Buttons.{set_input_msg}
use gtscreen.Input.Driver.{Pvt}
use gtscreen.Input.Keys.{row, touched, evdev_translate_btns, evdev_translate_keycode}

-- Every code in a table is a code of the protocol.
coded : List (ℕ × ℕ) → Bool
coded [] = true
coded ((k, c) ∷ rest) = ltb c keycode_count && coded rest

row-coded :
    (t : List (ℕ × ℕ)) (code c : ℕ) → coded t ≡ true → row code t ≡ some c → c < keycode_count
unfolding row coded
row-coded [] code c' h r = cc
row-coded ((k, c) ∷ rest) code c' h r = ground (arith, row-coded rest code c')

values : List (ℕ × ℕ) → List ℕ
values [] = []
values ((k, c) ∷ rest) = c ∷ values rest

-- No code stands in two rows.
distinct : List ℕ → Bool
distinct [] = true
distinct (x ∷ xs) = not (has x xs) && distinct xs

-- All tables of the translation in one.
unfoldable table : List (ℕ × ℕ)
table = keymap ++ (buttonmap ++ (btn_touch, keycode_contact) ∷ [])

keymap-coded_all : coded keymap ≡ true
unfolding coded keymap
keymap-coded_all = refl

buttonmap-coded_all : coded buttonmap ≡ true
unfolding coded buttonmap
buttonmap-coded_all = refl

pub keymap-coded : (code c : ℕ) → row code keymap ≡ some c → c < keycode_count
keymap-coded code c e = row-coded keymap code c keymap-coded_all e

set_input_msg-code :
    (d : Device) (msg : Input) (code : ℕ)
    → (set_input_msg d msg code).2 ≡ success
    → (set_input_msg d msg code).1.code ≡ code
unfolding set_input_msg
set_input_msg-code d msg code h = ground arith

-- A device without buttons of its own under a touch pad.
abbrev pub Touchless : {F : Type 0} → Pvt F → Type 0
Touchless pvt =
    (pvt.touch_lbtn ≡ none)
    × (pvt.touch_rbtn ≡ none)
    × (pvt.touch_mbtn ≡ none)
    × (pvt.touch_sbtn ≡ none)

module _ {F : Type 0} (d : Device) (pvt : Pvt F) (msg : Input) where
  touched-code :
      (touched d pvt msg).status ≡ success → (touched d pvt msg).msg.code ≡ keycode_contact
  unfolding touched
  touched-code h = ground arith

  -- Whatever the device, an event that evdev_translate_keycode sends has a code of the protocol.
  pub translated-coded :
      (evdev_translate_keycode d pvt msg).status ≡ success
      → (evdev_translate_keycode d pvt msg).msg.code < keycode_count
  unfolding evdev_translate_keycode evdev_translate_btns
  translated-coded h = elim (Option-cases (row msg.code keymap)) [
    | inl no_key ↦ elim (Option-cases (row msg.code buttonmap)) [
      | inl e ↦ ground (arith, touched-code)
      | inr (c, e) ↦
          ground
            (arith, row-coded buttonmap msg.code c buttonmap-coded_all, set_input_msg-code d msg c)
    ]
    | inr (c, e) ↦ ground (arith, keymap-coded msg.code c, set_input_msg-code d msg c)
  ]
