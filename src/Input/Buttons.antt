-- ===== src/Input/Buttons.antt =====
-- platform/linux/input.c: the bit arrays (bit_set, bit_clear, bit_check, bit_count, btn_is_down) and
-- set_input_msg. A `long` has 32 bits in the build; an array of longs is a list of words.
pub mod Pressed
use gtscreen.Prelude.{
  ℕ, zero, suc, ◌+◌, ◌-◌, ◌/◌, ◌%◌, ◌^◌, Bool, true, false, not, List, [], ◌∷◌, bit_and, bit_or,
  leb, ◌==◌, if◌then◌else◌, get_or, set, Status, success, failure,
}
use gtscreen.Protocol.{Input}
use gtscreen.Server.State.{Device}
use gtscreen.Input.Keycodes.{keycode_count}

abbrev pub long_bits : ℕ
long_bits = 32

-- NLONGS: the number of longs for n bits.
abbrev pub nlongs : ℕ → ℕ
nlongs n = (n + long_bits - 1) / long_bits

unfoldable pub bit_set : List ℕ → ℕ → List ℕ
bit_set arr bit =
    set arr (bit / long_bits) (bit_or (get_or arr (bit / long_bits) 0) (2 ^ (bit % long_bits)))

-- `~` of a word is its difference from the word of ones.
unfoldable pub bit_clear : List ℕ → ℕ → List ℕ
bit_clear arr bit =
    set arr (bit / long_bits)
      (bit_and (get_or arr (bit / long_bits) 0) (2 ^ 32 - 1 - 2 ^ (bit % long_bits)))

unfoldable pub bit_check : List ℕ → ℕ → ℕ → Bool
bit_check arr bit count =
    if leb count bit
    then false
    else not (bit_and (get_or arr (bit / long_bits) 0) (2 ^ (bit % long_bits)) == 0)

-- The inner loop of bit_count, over the lowest z bits of a word.
unfoldable pub word_count : ℕ → ℕ → ℕ
word_count zero w = 0
word_count (suc z) w = word_count z w + (if bit_and w (2 ^ z) == 0 then 0 else 1)

unfoldable pub bit_count : List ℕ → ℕ
unfolding word_count
bit_count [] = 0
bit_count (w ∷ ws) = word_count long_bits w + bit_count ws

unfoldable pub btn_is_down : Device → ℕ → Bool
btn_is_down d keycode = bit_check d.btn_down keycode keycode_count

-- A key event under its code of the protocol: the new state, the message, and whether to send it.
unfoldable pub set_input_msg : Device → Input → ℕ → Device × Input × Status
set_input_msg d msg code =
    let m = record msg { code = code } in
    if leb keycode_count code
    then (d, msg, failure)
    else if msg.val == 0
    then (if btn_is_down d code
        then (record d { btn_down = bit_clear d.btn_down code }, m, success)
        else (d, m, failure))
    else if msg.val == 1
    then (record d { btn_down = bit_set d.btn_down code }, m, success)
    else if msg.val == 2
    then (if btn_is_down d code then (d, m, success) else (d, m, failure))
    else (d, m, failure)
