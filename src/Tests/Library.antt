-- ===== src/Tests/Library.antt =====
-- The client library: inputs for its theorems, and runs.
use gtscreen.Prelude.{
  Ends, ℕ, suc, ◌≡◌, true, false, none, some, List, [], ◌∷◌, arith, replicate, Returns, success, ok,
  pure,
}
use gtscreen.Protocol.{decode_hdr, decode_register}
use gtscreen.Server.Sprite.{refusal}
use gtscreen.Client.{Program, no_sprite, register_msg, padded}
use gtscreen.Client.Handshake.{request_fd}
use gtscreen.Client.Handshake.Memory.{Served, request_fd-Mapped}
use gtscreen.Client.Handshake.Agreement.{register_msg-refusal}
use gtscreen.Client.Messages.{Calls, client_dispatch}
use gtscreen.Client.Messages.Loop.{Stalled, client_dispatch_ends}
use gtscreen.Tests.{calm, quiet_world, fb_64x2}

-- A program that counts the input events.
abbrev counting : Calls ℕ ℕ
counting = record {
  servinfo = λ c info. pure success;
  input = λ c msg s. ok success (record s { app = suc s.app });
  surface = λ c msg. pure success;
}

abbrev program : Program ℕ ℕ
program = record {
  servinfo_func = none;
  input_func = some 1;
  surface_func = none;
  servinfo = record { width = 64; height = 2; bpp = 32 };
  sprite = record no_sprite { width = 64; height = 2; bpp = 32 };
  wait_vsync = false;
  handshaking = true;
  socket = 5;
  epoll_fd = 6;
  msgbuf = replicate 1024 0;
  world = quiet_world;
  app = 0;
}

request_fd-Mapped_example : Returns (request_fd calm program) (Served calm 5 program.sprite)
request_fd-Mapped_example = request_fd-Mapped calm program

-- Two input events.
abbrev events : List ℕ
events =
    106 ∷ 0 ∷ 0 ∷ 0 ∷ 1 ∷ 0 ∷ 0 ∷ 0 ∷ 0 ∷ 0 ∷ 0 ∷ 0 ∷ 30 ∷ 0 ∷ 1 ∷ 0 ∷ 106 ∷ 0 ∷ 0 ∷ 0 ∷ 0 ∷ 0 ∷ 0
    ∷ 0 ∷ 0 ∷ 0 ∷ 0 ∷ 0 ∷ 30 ∷ 0 ∷ 1 ∷ 0 ∷ []

client_dispatch_ends_example :
    Ends
      (client_dispatch counting calm 9 events 32 33 0 program)
      (Stalled counting calm 9 events 32)
client_dispatch_ends_example =
    client_dispatch_ends counting calm 9 events 32 33 0 program (ground arith) (ground arith)

-- The name "ab".
register_msg-refusal_example :
    let msg = register_msg (97 ∷ 98 ∷ []) 64 2 0 in
    ((decode_hdr msg 0).type ≡ 101)
    × (decode_register msg 4
        ≡ record { name = padded (97 ∷ 98 ∷ []); flags = 0; width = 64; height = 2; bpp = 32 })
    × (refusal fb_64x2 (decode_register msg 4) ≡ none)
register_msg-refusal_example =
    register_msg-refusal fb_64x2 (97 ∷ 98 ∷ []) 64 2 0 (ground arith) (ground arith) (ground arith)
      (ground arith) (ground arith) (ground arith) (ground arith) (ground arith)
