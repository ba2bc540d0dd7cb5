-- ===== src/Start/Ready.antt =====
-- main.c, main: what holds when the server is started.
use gtscreen.Prelude.{
  ◌≡◌, refl, inl, inr, Bool, true, false, some, List, arith, success, failure, All, Option-cases,
  Status, Option, sym, subst, ◌∙◌, ap,
}
use gtscreen.Start.{
  Text, Environ, Options, read_environ, read_args, Args, go, print_modes, usage, arg_inactive_vt,
}
use gtscreen.Start.Ranges.{InRange, read_environ-InRange}
use gtscreen.Start.Arguments.{given, read_args-Exact}
use gtscreen.Start.Main.{
  Stat, missing, unreadable, found, Making, check_fs, with_args, checked, prepare,
}

-- The directory of the sockets is a directory of root with the sticky bit, or it was just made.
abbrev pub Safe : Stat → Making → Type 0
Safe missing m = (m.to_root ≡ true) × (m.made ≡ true) × (m.back ≡ true)
Safe unreadable m = ⊥
Safe (found is_dir sticky uid gid) m = (is_dir ≡ true) × (sticky ≡ true) × (uid ≡ 0) × (gid ≡ 0)

check_fs-Safe : (st : Stat) (m : Making) → check_fs st m ≡ success → Safe st m
unfolding check_fs
check_fs-Safe missing m h = ground arith
check_fs-Safe unreadable m h = absurd (ground arith)
check_fs-Safe (found is_dir sticky uid gid) m h = ground arith

checked-success :
    (s : Status) (o : Option Options) (p : Options)
    → checked s o ≡ some p
    → (s ≡ success) × (o ≡ some p)
unfolding checked
checked-success success o p h = (refl, h)
checked-success failure o p h = absurd (ground arith)

-- The options of the environment, and the arguments.
with_args-go :
    (o : Options) (a : Args) (p : Options)
    → with_args o a ≡ some p
    → (b : Bool) × (a ≡ go b) × (record o { inactive_vt = b } ≡ p)
unfolding with_args
with_args-go o (go b) p h = (b, refl, cc)
with_args-go o print_modes p h = absurd (ground arith)
with_args-go o usage p h = absurd (ground arith)

inactive-InRange : (o : Options) (b : Bool) → InRange o → InRange (record o { inactive_vt = b })
inactive-InRange o b i = record {
  name_length = i.name_length;
  name_chars = i.name_chars;
  width = i.width;
  height = i.height;
  refresh = i.refresh;
  tap = i.tap;
  accel = i.accel;
  vscroll = i.vscroll;
}

-- When main goes on to the server, its options are in range, whatever the environment: the name of
-- the socket is not empty, shorter than 128 and of printable characters without a slash or a full
-- stop; the width is 0, for none asked for, or from 256 on, the height 0 or from 128 on, the refresh
-- rate at least 1; the scroll amount lies between -50 and 50; and each fits its type. Every argument
-- was "--inactive-vt" in full, and the terminal is taken as inactive exactly if there was one. The
-- directory of the sockets belongs to root and has the sticky bit, or was made by main.
pub prepare-Ready :
    (default_socket : Text) (env : Environ) (argv : List Text) (st : Stat) (m : Making)
    (o : Options)
    → prepare default_socket env argv st m ≡ some o
    → InRange o × All (λ a. arg_inactive_vt ≡ a) argv × (o.inactive_vt ≡ given argv) × Safe st m
unfolding prepare
prepare-Ready default_socket env argv st m o h =
    elim (Option-cases (read_environ default_socket env)) [
      | inl fails ↦ absurd (ground arith)
      | inr (p, e) ↦
          let c =
            checked-success (check_fs st m) (with_args p (read_args false argv)) o (ground arith) in
          let w = with_args-go p (read_args false argv) o c.1 in
          let a = read_args-Exact false argv w.0 w.1 in
          let i = read_environ-InRange default_socket env p e in
          (
            subst InRange w.2 (inactive-InRange p w.0 i),
            a.0,
            ap (λ q. q.inactive_vt) (sym w.2) ∙ a.1,
            check_fs-Safe st m c.0,
          )
    ]
