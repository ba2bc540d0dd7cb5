-- ===== src/Input/Discover.antt =====
-- platform/linux/input.c: check_environ, possibly_keyboard, probably_surface, select_prp and
-- find_most_capable: which device of /dev/input is used for a class of input.
pub mod Environment
pub mod Chosen
use gtscreen.Prelude.{
  ℕ, zero, suc, ◌+◌, Bool, true, false, not, ◌&&◌, ◌||◌, Option, none, some, List, [], ◌∷◌, ◌++◌,
  leb, ltb, ◌==◌, if◌then◌else◌, take, length,
}
use gtscreen.Start.{Text, strncmp, is_digit}
use gtscreen.Input.Kernel.{
  key_leftctrl, key_rightctrl, key_leftalt, key_rightalt, key_space, key_backspace, key_enter,
  key_tab, key_esc, btn_touch,
}
use gtscreen.Input.Buttons.{bit_check, bit_count}
use gtscreen.Input.Surface.{abs_mt_position_x, abs_mt_position_y}

-- "event" and "/dev/input"
abbrev pub devpfx : Text
devpfx = b'e' ∷ b'v' ∷ b'e' ∷ b'n' ∷ b't' ∷ []

abbrev pub devdir : Text
devdir = 47 ∷ b'd' ∷ b'e' ∷ b'v' ∷ 47 ∷ b'i' ∷ b'n' ∷ b'p' ∷ b'u' ∷ b't' ∷ []

-- The loop of check_environ from the fifth character on: `left` more characters are looked at, of
-- which the terminator is one. `first`: no digit was seen yet.
unfoldable pub device_number : ℕ → Bool → Text → Bool
device_number zero first s = false
device_number (suc left) first [] = not first
device_number (suc left) first (c ∷ s) = is_digit c && device_number left false s

unfoldable pub after_prefix : Text → Text
after_prefix (_ ∷ _ ∷ _ ∷ _ ∷ _ ∷ s) = s
after_prefix _ = []

-- The value of the variable of a class, as a path.
unfoldable pub check_environ : Option Text → Option Text
unfolding device_number after_prefix strncmp
check_environ none = none
check_environ (some e) =
    if not (strncmp 5 e devpfx)
    then none
    else if device_number 4 true (after_prefix e)
    then some (devdir ++ 47 ∷ e)
    else none

-- What the kernel tells of a device, as bit arrays.
pub record Caps : Type 0 where
  pub evbits : List ℕ
  pub keybits : List ℕ
  pub relbits : List ℕ
  pub absbits : List ℕ
  pub ledbits : List ℕ
  pub ffbits : List ℕ

abbrev pub key_cnt : ℕ
key_cnt = 0x300

abbrev pub abs_cnt : ℕ
abs_cnt = 0x40

unfoldable pub possibly_keyboard : List ℕ → Bool
possibly_keyboard keybits =
    let key = λ (k : ℕ). bit_check keybits k key_cnt in
    (key key_leftctrl || key key_rightctrl)
    && (key key_leftalt || key key_rightalt)
    && key key_space
    && key key_backspace
    && key key_enter
    && key key_tab
    && key key_esc

unfoldable pub probably_surface : List ℕ → List ℕ → Bool
probably_surface absbits keybits =
    let axis = λ (k : ℕ). bit_check absbits k abs_cnt in
    bit_check keybits btn_touch key_cnt
    && ((axis 0 && axis 1) || (axis abs_mt_position_x && axis abs_mt_position_y))

-- `struct prospective_path`; an empty path: nothing was found.
pub record Prospect : Type 0 where
  pub path : Text
  pub key : ℕ
  pub rel : ℕ
  pub abs : ℕ
  pub led : ℕ
  pub ff : ℕ
  pub surface : Bool

abbrev pub blank_prospect : Prospect
blank_prospect = record { path = []; key = 0; rel = 0; abs = 0; led = 0; ff = 0; surface = false }

-- The number of LEDs is not stored.
unfoldable pub select_prp : Text → Caps → Prospect → Prospect
select_prp path c p = record p {
  path = path;
  key = bit_count c.keybits;
  rel = bit_count c.relbits;
  abs = bit_count c.absbits;
  ff = bit_count c.ffbits;
}

unfoldable pub prefer_keyboard : Text → Caps → Prospect → Prospect
unfolding select_prp
prefer_keyboard path c p =
    let q = if ltb p.led (bit_count c.ledbits) then select_prp path c p else p in
    if ltb q.key (bit_count c.keybits)
    then select_prp path c q
    else if not (bit_count c.keybits == q.key)
    then q
    else if ltb q.rel (bit_count c.relbits)
    then select_prp path c q
    else if ltb q.abs (bit_count c.absbits)
    then select_prp path c q
    else if ltb q.ff (bit_count c.ffbits)
    then select_prp path c q
    else q

pub data Class : Type 0 where
  keyboard mouse touch : Class

unfoldable pub consider : Class → Text → Caps → Prospect → Prospect
unfolding prefer_keyboard
consider keyboard path c p = if possibly_keyboard c.keybits then prefer_keyboard path c p else p
consider mouse path c p =
    let rel = bit_count c.relbits in
    if (p.key == 0) && leb 2 rel
    then select_prp path c p
    else if leb 2 rel && ltb p.rel rel
    then select_prp path c p
    else p
consider touch path c p =
    if p.surface
    then p
    else if probably_surface c.absbits c.keybits
    then record (select_prp path c p) { surface = true }
    else p

-- An entry of the directory: it cannot be opened, an ioctl on it fails, or it has capabilities.
pub data Probe : Type 0 where
  unopenable : Probe
  broken : Probe
  capable : Caps → Probe

abbrev pub entry_path : Text → Text
entry_path name = take 127 (devdir ++ 47 ∷ name)

-- The walk over the directory; a failing ioctl ends it without a result.
unfoldable pub search_dir : Class → List (Text × Probe) → Prospect → Option Prospect
unfolding consider strncmp
search_dir cls [] p = some p
search_dir cls ((name, unopenable) ∷ rest) p = search_dir cls rest p
search_dir cls ((name, broken) ∷ rest) p =
    if strncmp 5 name devpfx then none else search_dir cls rest p
search_dir cls ((name, capable c) ∷ rest) p =
    search_dir cls rest (if strncmp 5 name devpfx then consider cls (entry_path name) c p else p)

-- `none`: the directory cannot be opened.
unfoldable pub find_most_capable : Class → Option (List (Text × Probe)) → Option Prospect
unfolding search_dir
find_most_capable cls none = none
find_most_capable cls (some entries) = elim (search_dir cls entries blank_prospect) [
  | none ↦ none
  | some p ↦ if length p.path == 0 then none else some p
]

-- The device for a class: of the environment first.
unfoldable pub find_device : Class → Option Text → Option (List (Text × Probe)) → Option Text
unfolding find_most_capable
find_device cls variable dir = elim (check_environ variable) [
  | some path ↦ some path
  | none ↦ elim (find_most_capable cls dir) [ none ↦ none | some p ↦ some p.path ]
]
