-- ===== src/Client/Handshake/Agreement.antt =====
-- The registration of a client as the server sees it.
use gtscreen.Prelude.{
  ℕ, zero, suc, ◌-◌, ◌^◌, ◌≤◌, ◌<◌, ◌≡◌, refl, ap, none, List, [], arith, length, take, replicate,
  length-take, length-append,
}
use gtscreen.Protocol.{
  MsgHdr, RegisterSprite, decode_hdr, decode_register, encode_hdr, encode_register,
  msg_register_sprite,
}
use gtscreen.Protocol.Encoding.{decode_register-encode, decode_hdr-encode}
use gtscreen.Server.State.{Framebuffer}
use gtscreen.Server.Sprite.{refusal}
use gtscreen.Client.{register_msg, padded}

length-replicate : (n : ℕ) → length {A = ℕ} (replicate n 0) ≡ n
length-replicate zero = refl
length-replicate (suc n) = omega (arith, length-replicate n)

length-padded : (name : List ℕ) → length (padded name) ≡ 32
length-padded name = omega (
  arith,
  length-append (take 31 name) (replicate (32 - length (take 31 name)) 0),
  length-replicate (32 - length (take 31 name)),
  length-take 31 name,
)

-- The client checks the size of a sprite against the description that it got from the server. If
-- that is the server's framebuffer, of at least 32 bits, a request that passes the check and is not
-- empty arrives as it was sent and is not refused.
pub register_msg-refusal :
    (fb : Framebuffer) (name : List ℕ) (width height flags : ℕ)
    → width ≤ fb.width
    → height ≤ fb.height
    → 0 < width
    → 0 < height
    → 32 ≤ fb.bpp
    → fb.width < 2 ^ 16
    → fb.height < 2 ^ 16
    → flags < 2 ^ 32
    → let msg = register_msg name width height flags in
      ((decode_hdr msg 0).type ≡ msg_register_sprite)
      × (decode_register msg 4
          ≡ record { name = padded name; flags = flags; width = width; height = height; bpp = 32 })
      × (refusal fb (decode_register msg 4) ≡ none)
register_msg-refusal fb name width height flags w h w0 h0 b fw fh fl =
    let hdr : MsgHdr = record { type = msg_register_sprite; bits = 0 } in
    let reg : RegisterSprite = record {
      name = padded name;
      flags = flags;
      width = width;
      height = height;
      bpp = 32;
    } in
    let same : decode_register (register_msg name width height flags) 4 ≡ reg =
      decode_register-encode (encode_hdr hdr []) [] reg (length-padded name) fl (omega arith)
        (omega arith) (omega arith) in
    (
      ap (λ (m : MsgHdr). m.type)
          (decode_hdr-encode [] (encode_register reg []) hdr (omega arith) (omega arith)),
      same,
      rw same (ground arith),
    )
