-- ===== src/Server/Screens.antt =====
-- server.c, spr16_server_reset_client to hotkey_callback: switching screens.
pub mod Rotation
use gtscreen.Prelude.{
  ℕ, ◌||◌, List, [], ◌∷◌, ◌++◌, ◌==◌, if◌then◌else◌, pure, ◌>>=◌, ◌>>◌, Status, success, failure, ℤ,
  pos, negsuc,
}
use gtscreen.Os.{Os, raise_sigterm}
use gtscreen.Protocol.{Input, msg_input, encode_hdr, encode_input}
use gtscreen.Message.{write_msg}
use gtscreen.Server.State.{Screen, Cmd, get, modify, sys, call, load}
use gtscreen.Server.Devices.{input_flush_all_devices}
use gtscreen.Server.Sync.{sync_fullscreen}

-- Any client that tracks key states starts anew. The fields that the code leaves unset in the
-- message are `junk`.
abbrev pub reset_msg : Input → ℕ → List ℕ
reset_msg junk bits =
    encode_hdr (record { type = msg_input; bits = bits })
      (encode_input (record junk { type = 1; code = 0 }) [])

unfoldable pub reset_client : Os → Input → ℕ → ℕ → Cmd Status
reset_client os junk bits p = do
  c ← load p
  sys (λ w. write_msg os c.socket (reset_msg junk bits) w)

-- The main screen goes to the end of the list, the next one becomes the main screen.
unfoldable pub rotate : List Screen → List Screen
rotate [] = []
rotate (scrn ∷ scrns) = scrns ++ scrn ∷ []

unfoldable pub focus_first : Os → Input → ℕ → List Screen → Cmd (Unit {0})
focus_first os junk bits [] = pure tt
focus_first os junk bits (scrn ∷ _) = elim scrn.clients [
  | [] ↦ pure tt
  | p ∷ _ ↦ do _ ← reset_client os junk bits p; pure tt
]

refocus : Os → ℕ → Input → ℕ → Cmd Status
unfolding focus_first
refocus os fuel junk bits = do
  _ ← input_flush_all_devices os fuel
  sync_fullscreen
  scrns ← get (λ r. r.main_screen)
  focus_first os junk bits scrns
  pure success

-- `scrn` is -1 for the next screen; -2 and the numbers from 0 on are not implemented, and only
-- refresh the current one.
unfoldable pub main_screen_switch : Os → ℕ → Input → ℕ → ℤ → Cmd Status
unfolding refocus rotate
main_screen_switch os fuel junk bits scrn = do
  scrns ← get (λ r. r.main_screen)
  elim scrns [
    | [] ↦ pure success
    | first ∷ others ↦ elim scrn [
      | pos _ ↦ refocus os fuel junk bits
      | negsuc n ↦
          if n == 0
          then elim others [
            | [] ↦ pure success
            | _ ∷ _ ↦ do
              modify (λ r. record r { main_screen = rotate r.main_screen })
              refocus os fuel junk bits
          ]
          else (if n == 1 then refocus os fuel junk bits else pure failure)
    ]
  ]

-- SPR16_HOTKEY_AXE, _NEXTSCREEN and _PREVSCREEN are 1, 2 and 3.
unfoldable pub hotkey_callback : Os → ℕ → Input → ℕ → ℕ → Cmd Status
unfolding main_screen_switch
hotkey_callback os fuel junk bits hk =
    if hk == 1
    then (do call raise_sigterm; pure success)
    else if (hk == 2) || (hk == 3)
    then main_screen_switch os fuel junk bits (negsuc 0)
    else pure failure
