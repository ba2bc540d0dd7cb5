-- ===== src/Protocol/Encoding.antt =====
-- The message structures as the sender writes them and as the receiver casts them.
use gtscreen.Prelude.{
  ℕ, suc, zero, ◌+◌, ◌^◌, ◌<◌, ◌≡◌, refl, ap, List, [], ◌∷◌, ◌++◌, get_or, take, drop, length,
  arith,
}
use native.Mathlib.Nat.{add_assoc}
use gtscreen.Protocol.{
  MsgHdr, Servinfo, RegisterSprite, Ack, Sync, Input, put16, put32, get16, get32, encode_hdr,
  encode_servinfo, encode_register, encode_ack, encode_sync, encode_input, decode_hdr,
  decode_servinfo, decode_register, decode_ack, decode_sync, decode_input,
}

pub get16-put16 : (x : ℕ) (rest : List ℕ) → x < 2 ^ 16 → get16 (put16 x rest) 0 ≡ x
get16-put16 x rest h = omega arith

-- A read behind a prefix.
pub get_or-append : (a b : List ℕ) (i : ℕ) → get_or (a ++ b) (length a + i) 0 ≡ get_or b i 0
get_or-append [] b i = ap (λ j. get_or b j 0) (omega arith)
get_or-append (x ∷ a) b i =
    let e : suc (length a) + i ≡ suc (length a + i) = omega arith in rw e (get_or-append a b i)

-- The same for what a cast reads: an offset in the buffer is an offset in the message.
get16-append : (a b : List ℕ) (i j : ℕ) → j ≡ length a + i → get16 (a ++ b) j ≡ get16 b i
get16-append a b i j e = rw e (
    omega (
      arith,
      get_or-append a b i,
      get_or-append a b (i + 1),
      ap (λ k. get_or (a ++ b) k 0) (add_assoc (length a) i 1),
    ))

get32-append : (a b : List ℕ) (i j : ℕ) → j ≡ length a + i → get32 (a ++ b) j ≡ get32 b i
get32-append a b i j e =
    omega (arith, get16-append a b i j e, get16-append a b (i + 2) (j + 2) (omega arith))

-- A synchronisation request that was sent is received unchanged, wherever it stands in the buffer,
-- if its coordinates fit their fields.
pub decode_sync-encode :
    (pre rest : List ℕ) (m : Sync)
    → m.xmin < 2 ^ 16
    → m.ymin < 2 ^ 16
    → m.xmax < 2 ^ 16
    → m.ymax < 2 ^ 16
    → decode_sync (pre ++ encode_sync m rest) (length pre) ≡ m
unfolding decode_sync encode_sync
decode_sync-encode pre rest m a b c d =
    let buf : List ℕ = encode_sync m rest in
    ground (
      arith,
      get16-append pre buf 0 (length pre) (omega arith),
      get16-append pre buf 2 (length pre + 2) refl,
      get16-append pre buf 4 (length pre + 4) refl,
      get16-append pre buf 6 (length pre + 6) refl,
    )

-- A header that was sent is received unchanged, wherever it stands in the buffer, if its numbers
-- fit their fields.
pub decode_hdr-encode :
    (pre rest : List ℕ) (m : MsgHdr)
    → m.type < 2 ^ 16
    → m.bits < 2 ^ 16
    → decode_hdr (pre ++ encode_hdr m rest) (length pre) ≡ m
unfolding decode_hdr
decode_hdr-encode pre rest m a b =
    let buf : List ℕ = encode_hdr m rest in
    ground (
      arith,
      get16-append pre buf 0 (length pre) (omega arith),
      get16-append pre buf 2 (length pre + 2) refl,
    )

-- An ACK or a NACK that was sent is received unchanged, wherever it stands in the buffer, if its
-- numbers fit their fields.
pub decode_ack-encode :
    (pre rest : List ℕ) (m : Ack)
    → m.info < 2 ^ 16
    → m.ack < 2 ^ 16
    → decode_ack (pre ++ encode_ack m rest) (length pre) ≡ m
unfolding decode_ack encode_ack
decode_ack-encode pre rest m a b =
    let buf : List ℕ = encode_ack m rest in
    ground (
      arith,
      get16-append pre buf 0 (length pre) (omega arith),
      get16-append pre buf 2 (length pre + 2) refl,
    )

-- The server's description of its framebuffer is received unchanged, wherever it stands in the
-- buffer, if its numbers fit their fields.
pub decode_servinfo-encode :
    (pre rest : List ℕ) (m : Servinfo)
    → m.width < 2 ^ 16
    → m.height < 2 ^ 16
    → m.bpp < 2 ^ 16
    → decode_servinfo (pre ++ encode_servinfo m rest) (length pre) ≡ m
unfolding decode_servinfo encode_servinfo
decode_servinfo-encode pre rest m a b c =
    let buf : List ℕ = encode_servinfo m rest in
    ground (
      arith,
      get16-append pre buf 0 (length pre) (omega arith),
      get16-append pre buf 2 (length pre + 2) refl,
      get16-append pre buf 4 (length pre + 4) refl,
    )

take-append : (a b : List ℕ) (n : ℕ) → length a ≡ n → take n (a ++ b) ≡ a
take-append [] b zero e = refl
take-append [] b (suc n) e = absurd (omega arith)
take-append (x ∷ a) b zero e = absurd (omega arith)
take-append (x ∷ a) b (suc n) e = ap (◌∷◌ x) (take-append a b n (omega arith))

drop-append : (a b : List ℕ) → drop (length a) (a ++ b) ≡ b
drop-append [] b = refl
drop-append (x ∷ a) b = drop-append a b

-- A request to register a sprite that was sent is received unchanged, wherever it stands in the
-- buffer, if its name fills the array and its numbers fit their fields.
pub decode_register-encode :
    (pre rest : List ℕ) (m : RegisterSprite)
    → length m.name ≡ 32
    → m.flags < 2 ^ 32
    → m.width < 2 ^ 16
    → m.height < 2 ^ 16
    → m.bpp < 2 ^ 16
    → decode_register (pre ++ encode_register m rest) (length pre) ≡ m
unfolding decode_register encode_register
decode_register-encode pre rest m n a b c d =
    let tail : List ℕ =
      put32 m.flags (put16 m.width (put16 m.height (put16 m.bpp (put16 0 rest)))) in
    let buf : List ℕ = m.name ++ tail in
    ground (
      arith,
      drop-append pre buf,
      take-append m.name tail 32 n,
      get32-append pre buf 32 (length pre + 32) refl,
      get32-append m.name tail 0 32 (omega arith),
      get16-append pre buf 36 (length pre + 36) refl,
      get16-append m.name tail 4 36 (omega arith),
      get16-append pre buf 38 (length pre + 38) refl,
      get16-append m.name tail 6 38 (omega arith),
      get16-append pre buf 40 (length pre + 40) refl,
      get16-append m.name tail 8 40 (omega arith),
    )

abbrev pub FitsInput : Input → Type 0
FitsInput m =
    (m.val < 2 ^ 32) × (m.ext < 2 ^ 32) × (m.code < 2 ^ 16) × (m.type < 2 ^ 8) × (m.id < 2 ^ 8)

-- An input event that was sent is received unchanged, wherever it stands in the buffer, if its
-- numbers fit their fields.
pub decode_input-encode :
    (pre rest : List ℕ) (m : Input)
    → FitsInput m
    → decode_input (pre ++ encode_input m rest) (length pre) ≡ m
unfolding decode_input encode_input
decode_input-encode pre rest m h =
    let buf : List ℕ = encode_input m rest in
    ground (
      arith,
      get32-append pre buf 0 (length pre) (omega arith),
      get32-append pre buf 4 (length pre + 4) refl,
      get16-append pre buf 8 (length pre + 8) refl,
      get_or-append pre buf 10,
      get_or-append pre buf 11,
    )
