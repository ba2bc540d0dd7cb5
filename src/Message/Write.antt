-- ===== src/Message/Write.antt =====
-- spr16_write_msg: how often it writes, and which errors its callers see.
use gtscreen.Prelude.{
  ℕ, zero, suc, ◌≤◌, ◌≡◌, refl, ap, ◌⊎◌, inl, inr, false, List, ◌∷◌, arith, Status, success,
  failure, Bool-cases, true,
}
use gtscreen.Os.{
  Os, World, Answer, done, failed, write, is_eintr, Errno, set_errno, zero_errno, eagain, enter,
  Log,
}
use gtscreen.Message.{write_tries, write_msg}

pub Answer-cases :
    {A : Type 0} (r : Answer A) → ((a : A) × (r ≡ done a)) ⊎ ((e : Errno) × (r ≡ failed e))
Answer-cases (done a) = inl (a, refl)
Answer-cases (failed e) = inr (e, refl)

-- `k` writes one after the other, each of which was interrupted.
abbrev pub Interrupted : Os → ℕ → List ℕ → ℕ → Log → Type 0
Interrupted os fd msg zero log = Unit {0}
Interrupted os fd msg (suc k) log =
    ((e : Errno) × (os.write log fd msg ≡ failed e) × (is_eintr e ≡ true))
    × Interrupted os fd msg k (write fd msg ∷ log)

-- The last write, after `k` of at most `n`: it succeeds, or fails with the error that the caller sees; an interruption of the
-- last write of all is seen as EAGAIN.
abbrev pub Last : Os → ℕ → List ℕ → ℕ → ℕ → Log → World × Status → Type 0
Last os fd msg k n log (v, s) =
    ((m : ℕ) × (os.write log fd msg ≡ done m) × (s ≡ success))
    ⊎ ((e : Errno) × (os.write log fd msg ≡ failed e)
        × (s ≡ failure)
        × (((is_eintr e ≡ false) × (v.errno ≡ e))
            ⊎ ((is_eintr e ≡ true) × (k ≡ n) × (v.errno ≡ eagain))))

abbrev pub writes : ℕ → ℕ → List ℕ → Log → Log
writes zero fd msg log = log
writes (suc k) fd msg log = writes k fd msg (write fd msg ∷ log)

-- `spr16_write_msg` with `n` tries more than one, as its caller sees it.
abbrev pub Written : Os → ℕ → ℕ → List ℕ → Log → World × Status → Type 0
Written os n fd msg log r =
    (k : ℕ) × (k ≤ n)
    × Interrupted os fd msg k log
    × Last os fd msg k n (writes k fd msg log) r
    × (r.0.log ≡ writes (suc k) fd msg log)

Last-suc :
    (os : Os) (fd : ℕ) (msg : List ℕ) (k n : ℕ) (log : Log) (r : World × Status)
    → Last os fd msg k n log r
    → Last os fd msg (suc k) (suc n) log r
Last-suc os fd msg k n log r (inl good) = inl good
Last-suc os fd msg k n log r (inr (e, at, fails, inl bad)) = inr (e, at, fails, inl bad)
Last-suc os fd msg k n log r (inr (e, at, fails, inr (t, full, seen))) =
    inr (e, at, fails, inr (t, ap suc full, seen))

write_tries-Written :
    (os : Os) (n fd : ℕ) (msg : List ℕ) (w : World)
    → Written os n fd msg w.log (write_tries os n fd msg w)
unfolding write_tries
write_tries-Written os zero fd msg w = elim (Answer-cases (os.write w.log fd msg)) [
  | inl (m, e) ↦ rw (e, write_tries) (0, omega arith, tt, inl (m, e, refl), refl)
  | inr (x, e) ↦ elim (Bool-cases (is_eintr x)) [
    | inl t ↦
        rw (e, write_tries, t) (0, omega arith, tt, inr (x, e, refl, inr (t, refl, refl)), refl)
    | inr f ↦ rw (e, write_tries, f) (0, omega arith, tt, inr (x, e, refl, inl (f, refl)), refl)
  ]
]
write_tries-Written os (suc n) fd msg w = elim (Answer-cases (os.write w.log fd msg)) [
  | inl (m, e) ↦ rw (e, write_tries) (0, omega arith, tt, inl (m, e, refl), refl)
  | inr (x, e) ↦ elim (Bool-cases (is_eintr x)) [
    | inl t ↦
        let u : World = set_errno zero_errno (enter (write fd msg) w) in
        let (k, le, before, last, log) = write_tries-Written os n fd msg u in
        rw (write_tries, e, t)
          (
            suc k,
            omega arith,
            ((x, e, t), before),
            Last-suc os fd msg k n _ (write_tries os n fd msg u) last,
            log,
          )
    | inr f ↦ rw (e, write_tries, f) (0, omega arith, tt, inr (x, e, refl, inl (f, refl)), refl)
  ]
]

-- A call writes the whole message, again after an interruption (EINTR) and only then, at most 1001
-- times in all, and makes no other system call. It succeeds exactly if the last write does. If that
-- fails, then `errno` is its error, or EAGAIN when all 1001 writes were interrupted.
pub write_msg-Written :
    (os : Os) (fd : ℕ) (msg : List ℕ) (w : World)
    → Written os 1000 fd msg w.log (write_msg os fd msg w)
unfolding write_msg
write_msg-Written os fd msg w = write_tries-Written os 1000 fd msg w

write_tries_full :
    (os : Os) (n fd : ℕ) (msg : List ℕ) (w : World)
    → ((log : Log) (m : List ℕ) → os.write log fd m ≡ failed eagain)
    → write_tries os n fd msg w
      ≡ (set_errno eagain (enter (write fd msg) (set_errno zero_errno w)), failure)
unfolding write_tries
write_tries_full os zero fd msg w full = rw (write_tries, full w.log msg) refl
write_tries_full os (suc n) fd msg w full = rw (write_tries, full w.log msg) refl

-- A socket that is full is not waited for.
pub write_msg_full :
    (os : Os) (fd : ℕ) (msg : List ℕ) (w : World)
    → ((log : Log) (m : List ℕ) → os.write log fd m ≡ failed eagain)
    → write_msg os fd msg w
      ≡ (set_errno eagain (enter (write fd msg) (set_errno zero_errno w)), failure)
unfolding write_msg
write_msg_full os fd msg w full = write_tries_full os 1000 fd msg w full
