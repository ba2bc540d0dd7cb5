-- ===== src/Server/Messages/Whole.antt =====
-- spr16_dispatch_server_msgs on a buffer of whole messages.
use gtscreen.Prelude.{
  ℕ, ◌+◌, ◌≡◌, ◌≤◌, ◌<◌, refl, ◌||◌, false, true, List, arith, ltb, Status, success, failure, ◌>>=◌,
  pure,
}
use gtscreen.Os.{Os}
use gtscreen.Protocol.{decode_hdr, get16}
use gtscreen.Message.{get_msghdr_typelen}
use gtscreen.Message.Fragment.{typelen_bounds}
use gtscreen.Message.Framing.{Framed, end, more}
use gtscreen.Server.State.{Cmd, S}
use gtscreen.Server.Messages.{dispatch_round, handle_msg}

-- The message at `pos`, then the rest unless it fails.
abbrev pub handled : Os → ℕ → ℕ → List ℕ → ℕ → Cmd Status → Cmd Status
handled os fuel p buf pos rest = do
  r ← handle_msg os fuel p buf (decode_hdr buf pos).type (decode_hdr buf pos).bits (pos + 4)
  elim r [ failure ↦ pure failure | success ↦ rest ]

Framed-le : (buf : List ℕ) (len pos : ℕ) → Framed buf len pos → pos ≤ len
Framed-le buf len pos (end e) = omega (arith, e)
Framed-le buf len pos (more t f) = omega (arith, Framed-le buf len _ f)

-- In a buffer of whole messages, which a full read gives, the loop refuses none for its length: at
-- each message before the end it calls the handler, and behind the message the buffer again holds
-- whole messages up to its end.
pub dispatch_round-Framed :
    (os : Os) (fuel p : ℕ) (buf : List ℕ) (len pos : ℕ) (rest : Cmd Status) (s : S)
    → Framed buf len pos
    → pos < len
    → (dispatch_round os fuel p buf len pos rest s ≡ handled os fuel p buf pos rest s)
      × Framed buf len (pos + (4 + get_msghdr_typelen (decode_hdr buf pos).type))
unfolding dispatch_round decode_hdr
dispatch_round-Framed os fuel p buf len pos rest s (end e) l = absurd (omega (arith, e))
dispatch_round-Framed os fuel p buf len pos rest s (more t f) l =
    let below = Framed-le buf len _ f in
    let b = typelen_bounds (get16 buf pos) in
    let inside : ltb (pos + 4) len ≡ true = ground arith in
    let fits : (ltb 60 (get_msghdr_typelen (get16 buf pos))
          || ltb len (pos + 4 + get_msghdr_typelen (get16 buf pos)))
        ≡ false =
      ground arith in
    (rw (dispatch_round, inside, fits) refl, f)
