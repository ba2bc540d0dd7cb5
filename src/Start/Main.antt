-- ===== src/Start/Main.antt =====
-- main.c: check_fs, and main up to the server. What the system calls answer is an argument.
use gtscreen.Prelude.{
  ℕ, Bool, false, not, ◌&&◌, Option, none, some, List, ◌==◌, if◌then◌else◌, Status, success,
  failure,
}
use gtscreen.Start.{Text, Environ, Options, read_environ, Args, go, print_modes, usage, read_args}

-- The answer of `stat` on the directory of the sockets.
pub data Stat : Type 0 where
  missing : Stat
  unreadable : Stat
  found : (is_dir sticky : Bool) → (uid gid : ℕ) → Stat

-- The answers of `setgid` to the group of root, of `mkdir`, and of `setgid` back.
pub record Making : Type 0 where
  pub to_root : Bool
  pub made : Bool
  pub back : Bool

unfoldable pub check_fs : Stat → Making → Status
check_fs missing m = if m.to_root && m.made && m.back then success else failure
check_fs unreadable m = failure
check_fs (found is_dir sticky uid gid) m =
    if not is_dir
    then failure
    else if not sticky
    then failure
    else if not ((uid == 0) && (gid == 0))
    then failure
    else success

-- The options with which main goes on to the server, or none when it ends before.
unfoldable pub with_args : Options → Args → Option Options
with_args o (go inactive) = some (record o { inactive_vt = inactive })
with_args o print_modes = none
with_args o usage = none

unfoldable pub checked : Status → Option Options → Option Options
checked success o = o
checked failure o = none

-- The options are cleared first, so that inactive_vt is not set.
unfoldable pub prepare : Text → Environ → List Text → Stat → Making → Option Options
unfolding with_args checked check_fs
prepare default_socket env argv st m = elim (read_environ default_socket env) [
  | none ↦ none
  | some o ↦ checked (check_fs st m) (with_args o (read_args false argv))
]
