-- ===== src/Prelude/Outcome.antt =====
-- The outcome of code that may also read freed memory or loop: a state monad with two bad ends.
use mathlib.Core.Path.{◌≡◌, refl}
use mathlib.Core.Bool.{Bool, true, false}
use gtscreen.Prelude.Tests.{if◌then◌else◌}

-- What a C function with an `int` result tells its caller: 0, or -1.
pub data Status : Type 0 where
  success : Status
  failure : Status

-- `fault`: an access to memory that is not allocated. `stuck`: the fuel of a loop ran out.
pub data Run (S : Type 0) (A : Type 0) : Type 0 where
  ok : A → S → Run S A
  fault : Run S A
  stuck : Run S A

abbrev pub M : Type 0 → Type 0 → Type 0
M S A = S → Run S A

abbrev pub pure : {S A : Type 0} → A → M S A
pure a s = ok a s

infixl 5 ◌>>=◌ ◌>>◌
abbrev pub ◌>>=◌ : {S A B : Type 0} → M S A → (A → M S B) → M S B
◌>>=◌ m f s = elim (m s) [ ok a t ↦ f a t | fault ↦ fault | stuck ↦ stuck ]

abbrev pub ◌>>◌ : {S B : Type 0} → M S (Unit {0}) → M S B → M S B
m >> k = m >>= λ _. k

-- Total correctness: the code ends, reads no freed memory, and the result satisfies `P`.
abbrev pub Returns : {S A : Type 0} → Run S A → (A → S → Type 0) → Type 0
Returns (ok a s) P = P a s
Returns fault P = ⊥
Returns stuck P = ⊥

pub Returns-bind :
    {S A B : Type 0} (m : M S A) (f : A → M S B) (s : S) (P : A → S → Type 0) (Q : B → S → Type 0)
    → Returns (m s) P
    → ((a : A) (t : S) → P a t → Returns (f a t) Q)
    → Returns ((m >>= f) s) Q
Returns-bind m f s P Q r next = go (m s) r
  where
    go :
        (o : Run _ _)
        → Returns o P
        → Returns (elim o [ ok a t ↦ f a t | fault ↦ fault | stuck ↦ stuck ]) Q
    go (ok a t) h = next a t h
    go fault h = elim h [ ]
    go stuck h = elim h [ ]

pub Returns-mono :
    {S A : Type 0} (r : Run S A) (P Q : A → S → Type 0)
    → Returns r P
    → ((a : A) (t : S) → P a t → Q a t)
    → Returns r Q
Returns-mono (ok a s) P Q h k = k a s h
Returns-mono fault P Q h k = elim h [ ]
Returns-mono stuck P Q h k = elim h [ ]

-- The run ends, with a result or a fault, or else `X`.
abbrev pub Ends : {S A : Type 0} → Run S A → Type 0 → Type 0
Ends (ok a s) X = Unit {0}
Ends fault X = Unit {0}
Ends stuck X = X

pub Ends-bind :
    {S A B : Type 0} (m : M S A) (f : A → M S B) (s : S) (X : Type 0)
    → (m s ≡ stuck → X)
    → ((a : A) (t : S) → m s ≡ ok a t → Ends (f a t) X)
    → Ends ((m >>= f) s) X
Ends-bind m f s X here next = go (m s) refl
  where
    go :
        (o : Run _ _) → m s ≡ o → Ends (elim o [ ok a t ↦ f a t | fault ↦ fault | stuck ↦ stuck ]) X
    go (ok a t) e = next a t e
    go fault e = tt
    go stuck e = here e

pub if-Ends :
    {S A : Type 0} (X : Type 0) (b : Bool) (x y : M S A) (s : S)
    → (b ≡ true → Ends (x s) X)
    → (b ≡ false → Ends (y s) X)
    → Ends ((if b then x else y) s) X
if-Ends X true x y s h k = h refl
if-Ends X false x y s h k = k refl
