-- ===== src/Input/Streams.antt =====
-- platform/linux/input.c: transceive_ascii, which sends each byte of the standard input as a key, and
-- transceive_raw.
use gtscreen.Prelude.{
  ℕ, not, Option, none, some, List, [], ◌∷◌, if◌then◌else◌, pure, ◌>>=◌, success, failure,
}
use gtscreen.Os.{Os, done, failed, is_eagain}
use gtscreen.Protocol.{Input}
use gtscreen.Fdpoll.Poll.{Code, code_ok, code_remove}
use gtscreen.Server.State.{Cmd, get}
use gtscreen.Input.Driver.{Mute}
use gtscreen.Input.Evdev.{get_focused_client, update_state, send_to, input_msg}
use gtscreen.Input.Evdev.Transceive.{read_events}

abbrev pub input_key_ascii : ℕ
input_key_ascii = 3

-- The size of `buf`.
abbrev pub stream_buf : ℕ
stream_buf = 1024

module _ (os : Os) (fuel : ℕ) (junk : Input) (bits device_id : ℕ) where
  -- The value and the extent are not set: they come from `junk`.
  abbrev pub ascii_msg : ℕ → List ℕ
  ascii_msg c = input_msg bits (record junk { code = c; type = input_key_ascii; id = device_id })

  -- The bytes up to the first that cannot be written.
  unfoldable pub send_bytes : ℕ → List ℕ → Cmd (Unit {0})
  unfolding send_to
  send_bytes cl [] = pure tt
  send_bytes cl (c ∷ cs) = do
    r ← send_to os (some cl) (ascii_msg c)
    elim r [ failure ↦ pure tt | success ↦ send_bytes cl cs ]

  unfoldable pub forward : Option ℕ → List ℕ → Cmd (Unit {0})
  unfolding send_bytes
  forward none b = pure tt
  forward (some cl) b = send_bytes cl b

  unfoldable pub transceive_ascii : Mute → ℕ → Cmd (Mute × Code)
  unfolding forward
  transceive_ascii mute fd = do
    cl ← get_focused_client mute
    (mute', _) ← update_state os fuel junk bits mute
    r ← read_events os fuel fd stream_buf
    active ← get (λ q. q.is_active)
    elim r [
      | failed e ↦ pure (mute', if is_eagain e then code_ok else code_remove)
      | done b ↦
          if not active then pure (mute', code_ok) else (do _ ← forward cl b; pure (mute', code_ok))
    ]

  -- Not written yet: the handler is removed.
  unfoldable pub transceive_raw : Mute → Cmd (Mute × Code)
  transceive_raw mute = do
    (mute', _) ← update_state os fuel junk bits mute
    pure (mute', code_remove)
