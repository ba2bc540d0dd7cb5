-- ===== src/Message/Fragment.antt =====
-- The walk of spr16_reassemble_fragment over the messages in the buffer.
use gtscreen.Prelude.{
  ℕ, zero, suc, ◌+◌, ◌-◌, ◌^◌, ◌%◌, ◌≤◌, ◌≡◌, ◌⊎◌, inl, inr, List, ◌<◌, ◌≢◌, arith, Bool-cases, ltb,
}
use gtscreen.Protocol.{get16}
use gtscreen.Message.{get_msghdr_typelen, find_fragment, stop, spent, max_msgbuf_read}

-- A known type has between 4 and 44 bytes of data, and every structure has even size.
pub typelen_bounds :
    (type : ℕ)
    → (get_msghdr_typelen type ≡ 2 ^ 32 - 1)
      ⊎ ((4 ≤ get_msghdr_typelen type)
          × (get_msghdr_typelen type ≤ 44)
          × (get_msghdr_typelen type % 2 ≡ 0))
unfolding get_msghdr_typelen
typelen_bounds type = ground arith

-- The walk ends: with more fuel than bytes to go it never runs out.
pub find_fragment_ends :
    (k : ℕ) (buf : List ℕ) (rdpos msglen : ℕ)
    → 0 < k
    → max_msgbuf_read < rdpos + k
    → find_fragment k buf rdpos msglen ≢ spent
unfolding find_fragment
find_fragment_ends zero buf rdpos msglen p h = ground arith
find_fragment_ends (suc k) buf rdpos msglen p h =
    let t = get_msghdr_typelen (get16 buf rdpos) in
    ground
      (arith, typelen_bounds (get16 buf rdpos), find_fragment_ends k buf (rdpos + (4 + t)) (4 + t))

pub find_fragment_last :
    (k : ℕ) (buf : List ℕ) (rdpos msglen r m : ℕ)
    → max_msgbuf_read ≤ rdpos
    → find_fragment k buf rdpos msglen ≡ stop r m
    → (rdpos ≡ r) × (msglen ≡ m)
unfolding find_fragment
find_fragment_last zero buf rdpos msglen r m h e = ground arith
find_fragment_last (suc k) buf rdpos msglen r m h e = ground arith

-- Where a walk that starts in front of the end of the first read stops: the last message, of 8 to
-- 48 bytes, begins in front of that end, and ends at or behind it.
pub find_fragment_bounds :
    (k : ℕ) (buf : List ℕ) (rdpos msglen r m : ℕ)
    → rdpos < max_msgbuf_read
    → find_fragment k buf rdpos msglen ≡ stop r m
    → (max_msgbuf_read ≤ r) × (r < max_msgbuf_read + m) × (rdpos + m ≤ r) × (8 ≤ m) × (m ≤ 48)
unfolding find_fragment
find_fragment_bounds zero buf rdpos msglen r m h e = ground arith
find_fragment_bounds (suc k) buf rdpos msglen r m h e =
    let t = get_msghdr_typelen (get16 buf rdpos) in
    elim (Bool-cases (ltb (rdpos + (4 + t)) max_msgbuf_read)) [
      | inl more ↦ ground (
        arith,
        typelen_bounds (get16 buf rdpos),
        find_fragment_bounds k buf (rdpos + (4 + t)) (4 + t) r m,
      )
      | inr last ↦ ground (
        arith,
        typelen_bounds (get16 buf rdpos),
        find_fragment_last k buf (rdpos + (4 + t)) (4 + t) r m,
      )
    ]
