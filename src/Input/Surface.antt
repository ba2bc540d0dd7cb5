-- ===== src/Input/Surface.antt =====
-- platform/linux/input.c: clamp_abs, set_id, get_id and consume_surface_report, the multitouch
-- contacts. An `int` is an integer; a difference of two is taken not to leave its range. The results
-- of spr16_write_msg are not read, so the messages are listed in the order of the calls.
pub mod Events
pub mod Bounds
pub mod Safe
pub mod Moves
pub mod Report
pub mod Progress
pub mod Consumed
use gtscreen.Prelude.{
  ℕ, zero, suc, ◌+◌, ◌-◌, ◌<◌, Bool, true, false, not, ◌&&◌, ◌||◌, Option, none, some, List, [],
  ◌∷◌, ◌++◌, ltb, leb, ◌==◌, if◌then◌else◌, ℤ, pos, negsuc, ltb_ℤ, ◌-ℤ◌, get_elem?, set, drop,
  length, ◌/◌, ◌%◌, ◌^◌,
}
use gtscreen.Input.Driver.{Pvt, Absinfo}

abbrev pub max_contacts : ℕ
max_contacts = 64

-- linux/input.h
abbrev pub syn_mt_report : ℕ
syn_mt_report = 2

abbrev pub abs_mt_slot : ℕ
abs_mt_slot = 0x2f

abbrev pub abs_mt_touch_major : ℕ
abs_mt_touch_major = 0x30

abbrev pub abs_mt_position_x : ℕ
abs_mt_position_x = 0x35

abbrev pub abs_mt_position_y : ℕ
abs_mt_position_y = 0x36

abbrev pub abs_mt_tracking_id : ℕ
abs_mt_tracking_id = 0x39

abbrev pub abs_mt_pressure : ℕ
abs_mt_pressure = 0x3a

abbrev pub abs_mt_tool_y : ℕ
abs_mt_tool_y = 0x3d

-- `struct input_event` without its time.
pub record InputEvent : Type 0 where
  pub type : ℕ
  pub code : ℕ
  pub value : ℤ

-- The fields of `struct spr16_msgdata_input_surface` that are set, as integers; the others are 0.
pub record Contact : Type 0 where
  pub code : ℕ
  pub val : ℤ
  pub ext : ℤ
  pub xpos : ℤ
  pub ypos : ℤ
  pub xmax : ℤ
  pub ymax : ℤ

-- The new value and its range.
unfoldable pub clamp_abs : ℤ → ℤ → ℤ → Bool → ℤ × ℤ
clamp_abs val min max invert =
    let low = if ltb_ℤ val min then min else val in
    let high = if ltb_ℤ max low then max else low in
    let ext = max -ℤ min in (if invert then ext -ℤ (high -ℤ min) else high -ℤ min, ext)

abbrev pub minus_one : ℤ
minus_one = negsuc 0

-- set_id and get_id check the index; without the check an index out of range is `none`.
unfoldable pub set_id : List ℤ → ℤ → ℤ → List ℤ × ℤ
set_id ids (negsuc _) new_id = (ids, minus_one)
set_id ids (pos c) new_id =
    if leb max_contacts c then (ids, minus_one) else (set ids c new_id, new_id)

unfoldable pub get_id : List ℤ → ℤ → ℤ
get_id ids (negsuc _) = minus_one
get_id ids (pos c) =
    if leb max_contacts c
    then minus_one
    else elim (get_elem? ids c) [ some id ↦ id | none ↦ minus_one ]

-- The variables of the loop, with the messages sent so far.
pub record Scan (F : Type 0) : Type 0 where
  pub pvt : Pvt F
  pub active_id : ℤ
  pub active_contact : ℤ
  pub send_msg : Bool
  pub sent : List Contact

-- A step of the loop goes on, ends the loop, or reads or writes an array out of its bounds.
pub data Step (F : Type 0) : Type 0 where
  next : Scan F → Step F
  ended : Scan F → Step F
  overrun : Step F

abbrev pub is_negative : ℤ → Bool
is_negative (pos _) = false
is_negative (negsuc _) = true

abbrev pub is_zero : ℤ → Bool
is_zero (pos n) = n == 0
is_zero (negsuc _) = false

-- The initial contact is -1, and is taken for 0.
abbrev pub first_contact : ℤ → ℤ
first_contact (negsuc _) = pos 0
first_contact (pos c) = pos c

-- `max = 1 + maximum / 3`; the division of C is towards zero.
abbrev pub one_third : ℤ → ℤ
one_third (pos n) = pos (1 + n / 3)
one_third (negsuc n) = pos 1 -ℤ pos (suc n / 3)

abbrev pub write_at : List ℤ → ℤ → ℤ → Option (List ℤ)
write_at xs (negsuc _) v = none
write_at xs (pos c) v = if ltb c (length xs) then some (set xs c v) else none
