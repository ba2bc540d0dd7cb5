-- ===== src/Start/Ranges.antt =====
-- main.c, read_environ: the ranges of the options.
use gtscreen.Prelude.{
  ℕ, ◌%◌, ◌^◌, ◌≤◌, ◌<◌, ◌≡◌, ◌≢◌, refl, subst, ◌*◌, ◌⊎◌, inl, inr, true, false, ◌||◌, Option, none,
  some, [], ◌∷◌, arith, leb, ◌==◌, Bool-cases, Option-cases, length, ℤ, pos, negsuc, ◌≤ℤ◌, All,
}
use gtscreen.Start.{
  Text, strtol, strtoul, ◌>>=◌, Environ, Options, name_ok, read_socket_name, variable,
  clamp_vscroll, at_least, read_environ, or_default, to_u16, max_socket,
}

-- A printable character other than a slash and a full stop.
abbrev pub IsNameChar : ℕ → Type 0
IsNameChar c = (32 < c) × (c < 127) × (c ≢ b'/') × (c ≢ b'.')

pub record InRange (o : Options) : Type 0 where
  pub name_length : (0 < length o.socket_name) × (length o.socket_name < max_socket)
  pub name_chars : All IsNameChar o.socket_name
  pub width : (o.request_width ≡ 0) ⊎ ((256 ≤ o.request_width) × (o.request_width < 65536))
  pub height : (o.request_height ≡ 0) ⊎ ((128 ≤ o.request_height) × (o.request_height < 65536))
  pub refresh : (0 < o.request_refresh) × (o.request_refresh < 65536)
  pub tap : o.tap_delay < 2 ^ 32
  pub accel : o.pointer_accel < 65536
  pub vscroll : (negsuc 49 ≤ℤ o.vscroll_amount) × (o.vscroll_amount ≤ℤ pos 50)

name_ok-chars : (s : Text) → name_ok s ≡ true → All IsNameChar s
unfolding name_ok
name_ok-chars [] h = tt
name_ok-chars (c ∷ s) h = (ground arith, name_ok-chars s (ground arith))

read_socket_name-ok :
    (s n : Text)
    → read_socket_name s ≡ some n
    → (0 < length n) × (length n < max_socket) × All IsNameChar n
unfolding read_socket_name
read_socket_name-ok s n h = elim (Bool-cases ((length s == 0) || leb max_socket (length s))) [
  | inl bad ↦ absurd (ground arith)
  | inr fits ↦ elim (Bool-cases (name_ok s)) [
    | inl chars ↦
        let same : s ≡ n = ground arith in
        subst (λ (t : Text). (0 < length t) × (length t < max_socket) × All IsNameChar t) same
          (ground arith, ground arith, name_ok-chars s chars)
    | inr other ↦ absurd (ground arith)
  ]
]

abbrev SizeOk : ℕ → ℕ → Type 0
SizeOk least n = (n ≡ 0) ⊎ ((least ≤ n) × (n < 65536))

to_u16-lt : (v : ℤ) → to_u16 v < 65536
to_u16-lt (pos n) = omega arith
to_u16-lt (negsuc n) = omega arith

at_least-ok : (least b : ℕ) (v : ℤ) → least < 65536 → at_least least v ≡ some b → SizeOk least b
at_least-ok least b v small e = ground (arith, to_u16-lt v)

rate-ok : (b : ℕ) (v : ℤ) → at_least 0 v ≡ some b → (0 < b) × (b < 65536)
rate-ok b v e = ground (arith, to_u16-lt v)

abbrev ScrollOk : ℤ → Type 0
ScrollOk v = (negsuc 49 ≤ℤ v) × (v ≤ℤ pos 50)

clamp-ok : (v b : ℤ) → clamp_vscroll v ≡ some b → ScrollOk b
clamp-ok v b e = ground arith

wrapped_lt : (a b : ℕ) → some (a * 1000 % 2 ^ 32) ≡ some b → b < 2 ^ 32
wrapped_lt a b e = ground arith

cut_lt : (a b : ℕ) → some (a % 65536) ≡ some b → b < 65536
cut_lt a b e = ground arith

some-injective : {A : Type 0} {a b : A} → some a ≡ some b → a ≡ b
some-injective e = cc

-- A value has what the default and each checked value have.
variable-ok :
    {A B : Type 0} (convert : Text → Option A) (check : A → Option B) (default : B)
    (v : Option Text) (P : B → Type 0) (b : B)
    → P default
    → ((a : A) → check a ≡ some b → P b)
    → variable convert check default v ≡ some b
    → P b
unfolding variable
variable-ok convert check default none P b d c h = subst P (ground arith) d
variable-ok convert check default (some s) P b d c h = elim (Option-cases (convert s)) [
  | inl bad ↦ absurd (ground arith)
  | inr (a, e) ↦ c a (ground arith)
]

>>=-some :
    {A B : Type 0} (m : Option A) (f : A → Option B) {b : B}
    → m >>= f ≡ some b
    → (a : A) × (m ≡ some a) × (f a ≡ some b)
>>=-some none f h = cc
>>=-some (some a) f h = (a, refl, h)

-- Whatever the environment holds, the options that read_environ accepts are in range: the name of
-- the socket is not empty, shorter than 128 and of printable characters without a slash or a full
-- stop; the width is 0, for none asked for, or from 256 on, the height 0 or from 128 on, the refresh
-- rate at least 1; the scroll amount lies between -50 and 50; and each fits its type.
pub read_environ-InRange :
    (default_socket : Text) (env : Environ) (o : Options)
    → read_environ default_socket env ≡ some o
    → InRange o
unfolding read_environ
read_environ-InRange default_socket env o h =
    let vscroll = >>=-some _ _ h in
    let width = >>=-some _ _ vscroll.2 in
    let height = >>=-some _ _ width.2 in
    let refresh = >>=-some _ _ height.2 in
    let accel = >>=-some _ _ refresh.2 in
    let tap = >>=-some _ _ accel.2 in
    let name = >>=-some (read_socket_name (or_default default_socket env.socket)) _ tap.2 in
    let name_fits = read_socket_name-ok (or_default default_socket env.socket) name.0 name.1 in
    let o' : Options = record {
      socket_name = name.0;
      request_width = width.0;
      request_height = height.0;
      request_refresh = refresh.0;
      tap_delay = tap.0;
      pointer_accel = accel.0;
      vscroll_amount = vscroll.0;
      inactive_vt = false;
    } in
    let same : o' ≡ o = some-injective name.2 in
    subst InRange same (record {
      name_length = (name_fits.0, name_fits.1);
      name_chars = name_fits.2;
      width =
          variable-ok strtol (at_least 256) 0 env.width (SizeOk 256) width.0 (inl refl)
            (λ a e. at_least-ok 256 width.0 a (omega arith) e) width.1;
      height =
          variable-ok strtol (at_least 128) 0 env.height (SizeOk 128) height.0 (inl refl)
            (λ a e. at_least-ok 128 height.0 a (omega arith) e) height.1;
      refresh =
          variable-ok strtol (at_least 0) 60 env.refresh (λ n. (0 < n) × (n < 65536)) refresh.0
            (omega arith) (rate-ok refresh.0) refresh.1;
      tap =
          variable-ok strtoul (λ n. some (n * 1000 % 2 ^ 32)) 280000 env.tap (λ n. n < 2 ^ 32) tap.0
            (omega arith) (λ a e. wrapped_lt a tap.0 e) tap.1;
      accel =
          variable-ok strtoul (λ n. some (n % 65536)) 160 env.accel (λ n. n < 65536) accel.0
            (omega arith) (λ a e. cut_lt a accel.0 e) accel.1;
      vscroll =
          variable-ok strtol clamp_vscroll (pos 30) env.vscroll ScrollOk vscroll.0 (omega arith)
            (λ a e. clamp-ok a vscroll.0 e) vscroll.1;
    })
