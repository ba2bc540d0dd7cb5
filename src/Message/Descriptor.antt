-- ===== src/Message/Descriptor.antt =====
-- platform/linux/messages.c, afunix_recv_fd: a descriptor that comes with a single byte.
use gtscreen.Prelude.{ℕ, Bool, ◌&&◌, Option, none, some, ◌==◌, if◌then◌else◌}
use gtscreen.Os.{
  Os, World, Control, done, failed, recvmsg, close, enter, set_errno, zero_errno, econnreset,
}

-- CMSG_LEN(sizeof(int)) of the 32-bit build, SOL_SOCKET and SCM_RIGHTS.
abbrev rights_len : ℕ
rights_len = 16

abbrev is_rights : Control → Bool
is_rights c = (c.len == rights_len) && (c.level == 1) && (c.type == 1)

-- The byte is 'F'; a descriptor with another one is closed again.
unfoldable pub afunix_recv_fd : Os → ℕ → World → World × Option ℕ
afunix_recv_fd os sock w =
    let u = set_errno zero_errno w in
    let v = enter (recvmsg sock) u in
    elim (os.recvmsg u.log sock) [
      | failed e ↦ (set_errno e v, none)
      | done none ↦ (set_errno econnreset v, none)
      | done (some env) ↦ elim env.control [
        | none ↦ (v, none)
        | some c ↦
            if is_rights c
            then (if env.byte == 70 then (v, some c.fd) else (enter (close c.fd) v, none))
            else (v, none)
      ]
    ]
