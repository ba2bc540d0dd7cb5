-- ===== src/Start.antt =====
-- main.c: the options of the server, from the environment and from the arguments. Strings are lists
-- of bytes without the terminator. strtol and strtoul, of the C library, have longs of 32 bits.
pub mod Ranges
pub mod Main
pub mod Ready
pub mod Arguments
use gtscreen.Prelude.{
  ℕ, zero, suc, ◌+◌, ◌-◌, ◌*◌, ◌%◌, ◌^◌, Bool, true, false, not, ◌&&◌, ◌||◌, Option, none, some,
  List, [], ◌∷◌, ltb, leb, ◌==◌, if◌then◌else◌, length, ℤ, pos, negsuc, ltb_ℤ,
}

abbrev pub Text : Type 0
Text = List ℕ

abbrev is_space : ℕ → Bool
is_space c = (c == 32) || (leb 9 c && leb c 13)

abbrev pub is_digit : ℕ → Bool
is_digit c = leb b'0' c && leb c b'9'

unfoldable pub skip_spaces : Text → Text
skip_spaces [] = []
skip_spaces (c ∷ s) = if is_space c then skip_spaces s else c ∷ s

-- The value of the digits at the front, after those read before, and the rest.
unfoldable pub digits_of : ℕ → Text → ℕ × Text
digits_of n [] = (n, [])
digits_of n (c ∷ s) = if is_digit c then digits_of (10 * n + (c - b'0')) s else (n, c ∷ s)

-- A sign, if there is one: whether it is a minus.
unfoldable pub sign_of : Text → Bool × Text
sign_of [] = (false, [])
sign_of (c ∷ s) = if c == b'-' then (true, s) else if c == b'+' then (false, s) else (false, c ∷ s)

-- Sign and magnitude of a text that is a number to its end, after spaces. The empty text is 0: the
-- end pointer is at its terminator; any other text without digits is refused.
unfoldable pub whole_number : Text → Option (Bool × ℕ)
unfolding skip_spaces sign_of digits_of
whole_number [] = some (false, 0)
whole_number (c ∷ s) =
    let signed = sign_of (skip_spaces (c ∷ s)) in
    let r = digits_of 0 signed.1 in
    elim signed.1 [
      | [] ↦ none
      | d ∷ _ ↦ elim r.1 [ [] ↦ if is_digit d then some (signed.0, r.0) else none | _ ∷ _ ↦ none ]
    ]

-- strtol with the tests on its end pointer and on errno.
unfoldable pub strtol : Text → Option ℤ
unfolding whole_number
strtol s = elim (whole_number s) [
  | none ↦ none
  | some (minus, zero) ↦ some (pos 0)
  | some (true, suc n) ↦ if leb (suc n) 2147483648 then some (negsuc n) else none
  | some (false, suc n) ↦ if ltb (suc n) 2147483648 then some (pos (suc n)) else none
]

-- strtoul takes a minus, and wraps.
unfoldable pub strtoul : Text → Option ℕ
unfolding whole_number
strtoul s = elim (whole_number s) [
  | none ↦ none
  | some (minus, n) ↦
      if leb (2 ^ 32) n then none else some (if minus then (2 ^ 32 - n) % 2 ^ 32 else n)
]

abbrev pub to_u16 : ℤ → ℕ
to_u16 (pos n) = n % 65536
to_u16 (negsuc n) = 65535 - n % 65536

-- The variables of the environment that the server reads.
pub record Environ : Type 0 where
  pub vscroll : Option Text
  pub width : Option Text
  pub height : Option Text
  pub refresh : Option Text
  pub accel : Option Text
  pub tap : Option Text
  pub socket : Option Text

-- `struct server_options`
pub record Options : Type 0 where
  pub socket_name : Text
  pub request_width : ℕ
  pub request_height : ℕ
  pub request_refresh : ℕ
  pub tap_delay : ℕ
  pub pointer_accel : ℕ
  pub vscroll_amount : ℤ
  pub inactive_vt : Bool

abbrev pub max_socket : ℕ
max_socket = 128

-- A char is signed: a byte from 128 on is negative, and refused like a control character.
unfoldable pub name_ok : Text → Bool
name_ok [] = true
name_ok (c ∷ s) = not (leb c 32 || leb 127 c) && not ((c == b'/') || (c == b'.')) && name_ok s

unfoldable pub read_socket_name : Text → Option Text
unfolding name_ok
read_socket_name name =
    if (length name == 0) || leb max_socket (length name)
    then none
    else if name_ok name
    then some name
    else none

-- A variable that is not set has a default.
unfoldable pub variable :
    {A B : Type 0} → (Text → Option A) → (A → Option B) → B → Option Text → Option B
variable convert check default none = some default
variable convert check default (some s) = elim (convert s) [ none ↦ none | some v ↦ check v ]

abbrev pub clamp_vscroll : ℤ → Option ℤ
clamp_vscroll v =
    if ltb_ℤ v (negsuc 49)
    then some (negsuc 49)
    else if ltb_ℤ (pos 50) v
    then some (pos 50)
    else some v

-- A size is cut to a uint16_t, refused if that is 0, and raised to a least value.
abbrev pub at_least : ℕ → ℤ → Option ℕ
at_least least v =
    if to_u16 v == 0 then none else if ltb (to_u16 v) least then some least else some (to_u16 v)

infixl 5 ◌>>=◌
abbrev pub ◌>>=◌ : {A B : Type 0} → Option A → (A → Option B) → Option B
none >>= f = none
some a >>= f = f a

unfoldable pub or_default : Text → Option Text → Text
or_default d none = d
or_default d (some s) = s

-- SPR16_DEFAULT_SOCKET is a parameter of the build.
unfoldable pub read_environ : Text → Environ → Option Options
unfolding variable read_socket_name strtol strtoul or_default
read_environ default_socket env = do
  vscroll ← variable strtol clamp_vscroll (pos 30) env.vscroll
  width ← variable strtol (at_least 256) 0 env.width
  height ← variable strtol (at_least 128) 0 env.height
  refresh ← variable strtol (at_least 0) 60 env.refresh
  accel ← variable strtoul (λ n. some (n % 65536)) 160 env.accel
  tap ← variable strtoul (λ n. some (n * 1000 % 2 ^ 32)) 280000 env.tap
  name ← read_socket_name (or_default default_socket env.socket)
  some (record {
    socket_name = name;
    request_width = width;
    request_height = height;
    request_refresh = refresh;
    tap_delay = tap;
    pointer_accel = accel;
    vscroll_amount = vscroll;
    inactive_vt = false;
  })

-- The first `n` characters are equal, terminators included.
unfoldable pub strncmp : ℕ → Text → Text → Bool
strncmp zero a b = true
strncmp (suc n) [] [] = true
strncmp (suc n) [] (y ∷ b) = false
strncmp (suc n) (x ∷ a) [] = false
strncmp (suc n) (x ∷ a) (y ∷ b) = (x == y) && strncmp n a b

-- "--printmodes" and "--inactive-vt"
abbrev pub arg_printmodes : Text
arg_printmodes = 45 ∷ 45 ∷ b'p' ∷ b'r' ∷ b'i' ∷ b'n' ∷ b't' ∷ b'm' ∷ b'o' ∷ b'd' ∷ b'e' ∷ b's' ∷ []

abbrev pub arg_inactive_vt : Text
arg_inactive_vt =
    45 ∷ 45 ∷ b'i' ∷ b'n' ∷ b'a' ∷ b'c' ∷ b't' ∷ b'i' ∷ b'v' ∷ b'e' ∷ 45 ∷ b'v' ∷ b't' ∷ []

-- The server goes on with inactive_vt set or not; it stops after a list of modes, or after the usage.
pub data Args : Type 0 where
  go : Bool → Args
  print_modes : Args
  usage : Args

unfoldable pub read_args : Bool → List Text → Args
unfolding strncmp
read_args inactive [] = go inactive
read_args inactive (a ∷ rest) =
    if strncmp 13 arg_printmodes a
    then print_modes
    else if strncmp 14 arg_inactive_vt a
    then read_args true rest
    else usage
