-- ===== src/Message/Receive.antt =====
-- spr16_read_msgs: the buffer and the length that its callers get.
use gtscreen.Prelude.{
  ℕ, zero, suc, ◌+◌, ◌-◌, ◌≤◌, ◌<◌, ◌≡◌, refl, ◌||◌, Option, none, some, List, arith, ltb, ◌⊎◌, inl,
  inr, ◌==◌, length, Bool-cases,
}
use gtscreen.Os.{Os, World, done, read, enter}
use gtscreen.Message.{
  find_fragment, Walk, stop, unknown, spent, overlay, read_rest, read_tries, reassemble_fragment,
  check_length, read_msgs, Filled,
}
use gtscreen.Message.Write.{Answer-cases}
use gtscreen.Message.Fragment.{find_fragment_bounds}
use gtscreen.Message.Framing.{
  Framed, FramedAs, ReadsAtMost, length-overlay, reassemble_fragment-Framed,
}

-- What a call leaves in the buffer, and the length that it reports.
abbrev pub Received : Filled → Type 0
Received (buf, w, none) = length buf ≡ 1024
Received (buf, w, some n) =
    (length buf ≡ 1024) × (6 ≤ n) × (n ≤ 1024) × ((n < 960) ⊎ Framed buf n 0)

module _ (os : Os) (reads : ReadsAtMost os) where
  read_tries-length :
      (k fd n : ℕ) (w : World) (bytes : List ℕ)
      → (read_tries os k fd n w).1 ≡ done bytes
      → length bytes ≤ n
  unfolding read_tries
  read_tries-length zero fd n w bytes e = elim (Answer-cases (os.read w.log fd n)) [
    | inl (b, k) ↦ ground (arith, reads w.log fd n b k)
    | inr (x, k) ↦ ground arith
  ]
  read_tries-length (suc m) fd n w bytes e = elim (Answer-cases (os.read w.log fd n)) [
    | inl (b, k) ↦ ground (arith, reads w.log fd n b k)
    | inr (x, k) ↦ ground (arith, read_tries-length m fd n (enter (read fd n) w) bytes)
  ]

  read_rest-length :
      (fd : ℕ) (buf : List ℕ) (msglen frag : ℕ) (w : World)
      → length buf ≡ 1024
      → msglen ≤ 48
      → length (read_rest os fd buf msglen frag w).0 ≡ 1024
  unfolding read_rest
  read_rest-length fd buf msglen frag w l m =
      elim (Bool-cases ((msglen - frag == 0) || ltb 64 (msglen - frag + frag))) [
        | inl bad ↦ rw (read_rest, bad) l
        | inr good ↦ elim (Answer-cases (read_tries os 99 fd (msglen - frag) w).1) [
          | inr (x, k) ↦ rw (read_rest, good, k) l
          | inl (bytes, k) ↦
              let short : length bytes ≤ msglen - frag =
                read_tries-length 99 fd (msglen - frag) w bytes k in
              let same : length (overlay buf 960 bytes) ≡ 1024 =
                omega (arith, length-overlay buf bytes 960 (omega arith), l) in
              elim (Bool-cases (length bytes == (msglen - frag))) [
                | inl t ↦ rw (read_rest, good, k, t) same
                | inr f ↦ rw (read_rest, good, k, f) same
              ]
        ]
      ]

  reassemble_fragment-length :
      (fd : ℕ) (buf : List ℕ) (w : World)
      → length buf ≡ 1024
      → length (reassemble_fragment os fd buf w).0 ≡ 1024
  unfolding reassemble_fragment
  reassemble_fragment-length fd buf w l = go (find_fragment 961 buf 0 0) refl
    where
      go :
          (x : Walk)
          → find_fragment 961 buf 0 0 ≡ x
          → length (reassemble_fragment os fd buf w).0 ≡ 1024
      go spent e = rw (e, reassemble_fragment) l
      go unknown e = rw (e, reassemble_fragment) l
      go (stop r m) e =
          let b = find_fragment_bounds 961 buf 0 0 r m (omega arith) e in
          elim (Bool-cases (m - (r - 960) == m)) [
            | inl whole ↦ rw (e, reassemble_fragment, whole) l
            | inr cut ↦ elim (Bool-cases (ltb (m - (r - 960)) 2)) [
              | inl short ↦ rw (e, reassemble_fragment, cut, short) l
              | inr long ↦
                  rw (e, reassemble_fragment, cut, long)
                    (read_rest-length fd buf m (m - (r - 960)) w l (omega arith))
            ]
          ]

  check_length-Received :
      (f : Filled)
      → length f.0 ≡ 1024
      → ((k : ℕ) → f.2 ≡ some k → 960 ≤ k → Framed f.0 k 0)
      → Received (check_length f)
  unfolding check_length
  check_length-Received (buf, w, none) l f = l
  check_length-Received (buf, w, some n) l f = elim (Bool-cases (ltb 1024 n || ltb n 6)) [
    | inl bad ↦ rw bad l
    | inr good ↦ elim (Bool-cases (ltb n 960)) [
      | inl short ↦ rw good (l, ground arith, ground arith, inl (ground arith))
      | inr long ↦ rw good (l, ground arith, ground arith, inr (f n refl (ground arith)))
    ]
  ]

  FramedAs-some :
      (buf : List ℕ) (o : Option ℕ) (k : ℕ) → FramedAs buf o → o ≡ some k → Framed buf k 0
  FramedAs-some buf o k f e = (rw e at f).2

  -- If a read never gives more bytes than it was asked for, a call on a buffer of 1024 bytes ends
  -- with a buffer of 1024 bytes: it stores nothing behind the end. A length that it returns is from
  -- 6 to 1024, and from 960 on, where the second read completes the last message, the buffer holds
  -- whole messages of known types up to exactly that length.
  pub read_msgs-Received :
      (fd : ℕ) (buf : List ℕ) (w : World) → length buf ≡ 1024 → Received (read_msgs os fd buf w)
  unfolding read_msgs
  read_msgs-Received fd buf w l = elim (Answer-cases (os.read w.log fd 960)) [
    | inr (x, e) ↦ rw (read_msgs, e) l
    | inl (bytes, e) ↦
        let short : length bytes ≤ 960 = reads w.log fd 960 bytes e in
        let same : length (overlay buf 0 bytes) ≡ 1024 =
          omega (arith, length-overlay buf bytes 0 (omega arith), l) in
        let v : World = enter (read fd 960) w in
        elim (Bool-cases (length bytes == 960)) [
          | inr part ↦
              rw (read_msgs, e, part)
                (check_length-Received (overlay buf 0 bytes, v, some (length bytes)) same
                  (λ k k_eq h. absurd (ground arith)))
          | inl full ↦
              rw (read_msgs, e, full)
                (check_length-Received (reassemble_fragment os fd (overlay buf 0 bytes) v)
                  (reassemble_fragment-length fd (overlay buf 0 bytes) v same)
                  (λ k k_eq h.
                    FramedAs-some _ _ k
                      (reassemble_fragment-Framed os fd (overlay buf 0 bytes) v (omega arith))
                      k_eq))
        ]
  ]
