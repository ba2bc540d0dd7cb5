-- ===== src/Message/Framing.antt =====
-- spr16_reassemble_fragment: the messages in the buffer after the second read.
use gtscreen.Prelude.{
  ℕ, zero, suc, ◌+◌, ◌-◌, ◌≤◌, ◌<◌, ◌≡◌, refl, false, ◌||◌, Option, none, some, List, [], ◌∷◌, ◌++◌,
  arith, ltb, ltb→lt, inl, inr, ◌==◌, get_or, take, drop, length, length-append, length-take,
  length-drop, Bool-cases,
}
use gtscreen.Os.{Os, World, done, Log}
use gtscreen.Protocol.{get16}
use gtscreen.Message.{
  get_msghdr_typelen, find_fragment, Walk, stop, unknown, spent, max_msgbuf_read, overlay,
  read_rest, read_tries, reassemble_fragment,
}
use gtscreen.Message.Write.{Answer-cases}
use gtscreen.Message.Fragment.{find_fragment_bounds}

-- From `pos` on the buffer holds whole messages of known types, up to `len` exactly.
pub data Framed (buf : List ℕ) (len : ℕ) : ℕ → Type 0 where
  end : {pos : ℕ} → pos ≡ len → Framed buf len pos
  more :
      {pos : ℕ}
      → get_msghdr_typelen (get16 buf pos) ≤ 60
      → Framed buf len (pos + (4 + get_msghdr_typelen (get16 buf pos)))
      → Framed buf len pos

get_or-take-append :
    (n : ℕ) (buf ys : List ℕ) (i : ℕ)
    → i < n
    → n ≤ length buf
    → get_or (take n buf ++ ys) i 0 ≡ get_or buf i 0
get_or-take-append zero buf ys i h l = absurd (omega arith)
get_or-take-append (suc n) [] ys i h l = absurd (omega arith)
get_or-take-append (suc n) (x ∷ buf) ys zero h l = refl
get_or-take-append (suc n) (x ∷ buf) ys (suc i) h l =
    get_or-take-append n buf ys i (omega arith) (omega arith)

-- A walk over a buffer with the same headers.
find_fragment-Framed :
    (k : ℕ) (buf buf2 : List ℕ) (rdpos msglen r m : ℕ)
    → find_fragment k buf rdpos msglen ≡ stop r m
    → ((p : ℕ) → p + m ≤ r → get16 buf2 p ≡ get16 buf p)
    → Framed buf2 r rdpos
unfolding find_fragment
find_fragment-Framed zero buf buf2 rdpos msglen r m e same = absurd (ground arith)
find_fragment-Framed (suc k) buf buf2 rdpos msglen r m e same =
    let t : ℕ = get_msghdr_typelen (get16 buf rdpos) in
    elim (Bool-cases (ltb rdpos max_msgbuf_read)) [
      | inr f ↦ end (ground arith)
      | inl lt ↦
          let eq : get16 buf2 rdpos ≡ get16 buf rdpos = same rdpos (
            omega
              (arith, (find_fragment_bounds (suc k) buf rdpos msglen r m (ltb→lt _ _ lt) e).2)) in
          let next : find_fragment k buf (rdpos + (4 + t)) (4 + t) ≡ stop r m = ground arith in
          let small : t ≤ 60 = ground arith in
          more (rw eq small)
            (rw eq (find_fragment-Framed k buf buf2 (rdpos + (4 + t)) (4 + t) r m next same))
    ]

-- `read` stores no more than it was asked for.
abbrev pub ReadsAtMost : Os → Type 0
ReadsAtMost os =
    (l : Log) (fd n : ℕ) (bytes : List ℕ) → os.read l fd n ≡ done bytes → length bytes ≤ n

overlay-get16 :
    (buf bytes : List ℕ) (n p : ℕ)
    → p + 2 ≤ n
    → n ≤ length buf
    → get16 (overlay buf n bytes) p ≡ get16 buf p
overlay-get16 buf bytes n p h l = omega (
  arith,
  get_or-take-append n buf (bytes ++ drop (n + length bytes) buf) p,
  get_or-take-append n buf (bytes ++ drop (n + length bytes) buf) (p + 1),
)

pub length-overlay :
    (buf bytes : List ℕ) (n : ℕ)
    → n + length bytes ≤ length buf
    → length (overlay buf n bytes) ≡ length buf
length-overlay buf bytes n h = omega (
  arith,
  length-append (take n buf) (bytes ++ drop (n + length bytes) buf),
  length-append bytes (drop (n + length bytes) buf),
  length-take n buf,
  length-drop (n + length bytes) buf,
)

abbrev pub FramedAs : List ℕ → Option ℕ → Type 0
FramedAs buf none = Unit {0}
FramedAs buf (some n) = (960 ≤ n) × (n < 1008) × Framed buf n 0

read_rest-Framed :
    (os : Os) (fd : ℕ) (buf : List ℕ) (msglen frag n : ℕ) (w : World)
    → 2 ≤ frag
    → frag < msglen
    → msglen ≤ 48
    → n ≡ 960 + (msglen - frag)
    → ((bytes : List ℕ) → Framed (overlay buf 960 bytes) n 0)
    → let r = read_rest os fd buf msglen frag w in FramedAs r.0 r.2
unfolding read_rest
read_rest-Framed os fd buf msglen frag n w two lt le e framed =
    elim (Answer-cases (read_tries os 99 fd (msglen - frag) w).1) [
      | inr (x, k) ↦
          let left : ((msglen - frag == 0) || ltb 64 (msglen - frag + frag)) ≡ false =
            ground arith in
          rw (read_rest, left, k) tt
      | inl (bytes, k) ↦
          let left : ((msglen - frag == 0) || ltb 64 (msglen - frag + frag)) ≡ false =
            ground arith in
          elim (Bool-cases (length bytes == (msglen - frag))) [
            | inr f ↦ rw (read_rest, left, k, f) tt
            | inl t ↦
                let same : 960 + length bytes ≡ n = ground arith in
                rw (read_rest, left, k, t, same)
                  (omega arith, omega arith, rw same at (framed bytes))
          ]
    ]

pub reassemble_fragment-Framed :
    (os : Os) (fd : ℕ) (buf : List ℕ) (w : World)
    → 960 ≤ length buf
    → let r = reassemble_fragment os fd buf w in FramedAs r.0 r.2
unfolding reassemble_fragment
reassemble_fragment-Framed os fd buf w h = go (find_fragment 961 buf 0 0) refl
  where
    go :
        (x : Walk)
        → find_fragment 961 buf 0 0 ≡ x
        → let r = reassemble_fragment os fd buf w in FramedAs r.0 r.2
    go spent e = rw (e, reassemble_fragment) tt
    go unknown e = rw (e, reassemble_fragment) tt
    go (stop r m) e =
        let b = find_fragment_bounds 961 buf 0 0 r m (omega arith) e in
        elim (Bool-cases (m - (r - 960) == m)) [
          | inl whole ↦
              let n : 960 ≡ r = ground arith in
              rw (e, reassemble_fragment, whole)
                (
                  omega arith,
                  omega arith,
                  rw n (find_fragment-Framed 961 buf buf 0 0 r m e (λ p _. refl)),
                )
          | inr cut ↦ elim (Bool-cases (ltb (m - (r - 960)) 2)) [
            | inl short ↦ rw (e, reassemble_fragment, cut, short) tt
            | inr long ↦
                rw (e, reassemble_fragment, cut, long)
                  (read_rest-Framed os fd buf m (m - (r - 960)) r w (ground arith) (ground arith)
                    (omega arith) (omega arith)
                    (λ bytes.
                      find_fragment-Framed 961 buf (overlay buf 960 bytes) 0 0 r m e
                        (λ p q. overlay-get16 buf bytes 960 p (ground arith) h)))
          ]
        ]
