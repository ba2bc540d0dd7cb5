-- ===== src/Input/Buttons/Pressed.antt =====
-- platform/linux/input.c: the array of buttons as a set of keys, and set_input_msg as a step on it.
use gtscreen.Prelude.{
  ℕ, zero, suc, ◌-◌, ◌/◌, ◌%◌, ◌^◌, ◌<◌, ◌≡◌, refl, inl, inr, Bool, true, false, not, ◌&&◌, ◌||◌,
  List, [], ◌∷◌, bit_and, bit_or, arith, leb, ◌==◌, if◌then◌else◌, Bool-cases, get_or, length-set,
  set, length, success, failure,
}
use gtscreen.Prelude.Bits.{
  digit, digit-bit_or, digit-bit_and, digit-pow, digit-complement, bit_and-pow_test,
}
use gtscreen.Protocol.{Input}
use gtscreen.Server.State.{Device}
use gtscreen.Input.Keycodes.{keycode_count}
use gtscreen.Input.Buttons.{bit_set, bit_clear, bit_check, btn_is_down, set_input_msg}

get_or-set :
    (xs : List ℕ) (i j v d : ℕ)
    → i < length xs
    → get_or (set xs i v) j d ≡ (if j == i then v else get_or xs j d)
get_or-set [] i j v d h = elim h [ ]
get_or-set (x ∷ xs) zero zero v d h = refl
get_or-set (x ∷ xs) zero (suc j) v d h = ground arith
get_or-set (x ∷ xs) (suc i) zero v d h = ground arith
get_or-set (x ∷ xs) (suc i) (suc j) v d h = ground (arith, get_or-set xs i j v d)

-- A bit that is set.
member : List ℕ → ℕ → Bool
member arr k = not (digit (get_or arr (k / 32) 0) (k % 32) == 0)

bit_check-member :
    (arr : List ℕ) (k n : ℕ) → bit_check arr k n ≡ (if leb n k then false else member arr k)
unfolding bit_check member
bit_check-member arr k n = rw (bit_and-pow_test (k % 32) (get_or arr (k / 32) 0))

-- Digit `k % 32` of a word that `|` or `& ~` changed at digit `b % 32`.
set_digit :
    (w b k : ℕ)
    → (digit (bit_or w (2 ^ (b % 32))) (k % 32) == 0)
      ≡ (not (k % 32 == b % 32) && (digit w (k % 32) == 0))
set_digit w b k =
    rw (digit-bit_or (k % 32) w (2 ^ (b % 32)), digit-pow (b % 32) (k % 32)) (ground arith)

clear_digit :
    (w b k : ℕ)
    → (digit (bit_and w (2 ^ 32 - 1 - 2 ^ (b % 32))) (k % 32) == 0)
      ≡ ((k % 32 == b % 32) || (digit w (k % 32) == 0))
clear_digit w b k =
    rw
      (
        digit-bit_and (k % 32) w (2 ^ 32 - 1 - 2 ^ (b % 32)),
        digit-complement 32 (b % 32) (k % 32) (omega arith) (omega arith),
      )
      (ground arith)

member-set :
    (arr : List ℕ) (b k : ℕ)
    → b / 32 < length arr
    → member (bit_set arr b) k ≡ ((k == b) || member arr k)
unfolding member bit_set
member-set arr b k h =
    let w : ℕ = get_or arr (b / 32) 0 in
    rw (get_or-set arr (b / 32) (k / 32) (bit_or w (2 ^ (b % 32))) 0 h)
      (elim (Bool-cases (k / 32 == b / 32)) [
        | inl same ↦
            let e : k / 32 ≡ b / 32 = ground arith in rw (same, set_digit w b k, e) (ground arith)
        | inr other ↦ rw other (ground arith)
      ])

member-clear :
    (arr : List ℕ) (b k : ℕ)
    → b / 32 < length arr
    → member (bit_clear arr b) k ≡ (not (k == b) && member arr k)
unfolding member bit_clear
member-clear arr b k h =
    let w : ℕ = get_or arr (b / 32) 0 in
    rw (get_or-set arr (b / 32) (k / 32) (bit_and w (2 ^ 32 - 1 - 2 ^ (b % 32))) 0 h)
      (elim (Bool-cases (k / 32 == b / 32)) [
        | inl same ↦
            let e : k / 32 ≡ b / 32 = ground arith in rw (same, clear_digit w b k, e) (ground arith)
        | inr other ↦ rw other (ground arith)
      ])

bit_check-set :
    (arr : List ℕ) (b k n : ℕ)
    → b / 32 < length arr
    → b < n
    → bit_check (bit_set arr b) k n ≡ ((k == b) || bit_check arr k n)
bit_check-set arr b k n h lt =
    rw (bit_check-member (bit_set arr b) k n, bit_check-member arr k n, member-set arr b k h)
      (ground arith)

bit_check-clear :
    (arr : List ℕ) (b k n : ℕ)
    → b / 32 < length arr
    → bit_check (bit_clear arr b) k n ≡ (not (k == b) && bit_check arr k n)
bit_check-clear arr b k n h =
    rw (bit_check-member (bit_clear arr b) k n, bit_check-member arr k n, member-clear arr b k h)
      (ground arith)

set_length : (arr : List ℕ) (b : ℕ) → length (bit_set arr b) ≡ length arr
unfolding bit_set
set_length arr b = length-set arr _ _

clear_length : (arr : List ℕ) (b : ℕ) → length (bit_clear arr b) ≡ length arr
unfolding bit_clear
clear_length arr b = length-set arr _ _

-- The keys that are down after an event, from the keys that were down before.
abbrev pub after : (ℕ → Bool) → ℕ → ℕ → ℕ → Bool
after down val code k =
    if val == 0
    then not (k == code) && down k
    else if val == 1
    then (k == code) || down k
    else down k

-- Whether an event is sent: a press always, a release or a repeat of a key that is down.
abbrev pub heard : (ℕ → Bool) → ℕ → ℕ → Bool
heard down val code =
    if val == 0 then down code else if val == 1 then true else if val == 2 then down code else false

-- The array has a bit for every code.
abbrev pub Fits : Device → Type 0
Fits d = length d.btn_down ≡ 11

-- For a code of the protocol, set_input_msg acts as a step on the set of the keys that are down: a
-- press adds the code and is sent, a release takes it out and is sent if it was in, a repeat is
-- sent if it is in, and nothing else is sent or changes the set. The array keeps its length, and the
-- message carries the code.
pub set_input_msg-refines :
    (d : Device) (msg : Input) (code : ℕ)
    → Fits d
    → code < keycode_count
    → let r = set_input_msg d msg code in
      Fits r.0
      × ((k : ℕ) → btn_is_down r.0 k ≡ after (btn_is_down d) msg.val code k)
      × (r.2 ≡ (if heard (btn_is_down d) msg.val code then success else failure))
      × (r.1 ≡ record msg { code = code })
unfolding set_input_msg btn_is_down
set_input_msg-refines d msg code fits lt = (
  ground (arith, clear_length d.btn_down code, set_length d.btn_down code),
  λ k. ground (arith, bit_check-set d.btn_down code k 324, bit_check-clear d.btn_down code k 324),
  ground arith,
  ground arith,
)
