-- ===== src/Input/Setup/Measured.antt =====
-- platform/linux/input.c, evdev_instantiate: what a new device is set to, from what the kernel tells.
use gtscreen.Prelude.{
  ℕ, zero, suc, ◌<◌, ◌≤◌, ◌≡◌, refl, subst, sym, ap, ◌∙◌, ◌⊎◌, inl, inr, Bool, true, false, not,
  ◌&&◌, ◌||◌, Option, none, some, List, arith, ◌==◌, if◌then◌else◌, Bool-cases, Option-cases, pos,
  replicate, if_true, if_false, ltb,
}
use gtscreen.Start.{Options}
use gtscreen.Input.Buttons.{bit_check}
use gtscreen.Input.Driver.{Pvt, Absinfo, Timespec}
use gtscreen.Input.Surface.{
  minus_one, abs_mt_slot, abs_mt_tracking_id, abs_mt_position_x, abs_mt_position_y, abs_mt_pressure,
  abs_mt_touch_major,
}
use gtscreen.Input.Discover.{Caps, Class, abs_cnt}
use gtscreen.Input.Evdev.Placed.{Placed}
use gtscreen.Input.Setup.{
  ev_abs_bit, ev_cnt, read_ranges, cleared, setup_surface, setup_axes, setup_ranged, with_ranges,
  finish_setup, evdev_load_settings, evdev_setup,
}
use gtscreen.Input.Setup.Fresh.{some_injective, none-some, Ordered, evdev_setup-Placed}

-- The device has absolute axes, and this one.
abbrev pub has_axis : Caps → ℕ → Bool
has_axis caps i = bit_check caps.evbits ev_abs_bit ev_cnt && bit_check caps.absbits i abs_cnt

-- A multitouch surface: slots, and a position on one axis at least.
abbrev pub is_multitouch : Caps → Bool
is_multitouch caps =
    has_axis caps abs_mt_slot
    && (has_axis caps abs_mt_position_x || has_axis caps abs_mt_position_y)

-- Where the magnitude of a contact comes from: on a multitouch surface the pressure, else the size,
-- with the kernel's maximum; else there is none, and the maximum is 1.
pub data Magnitude {F : Type 0} (ask : ℕ → Option Absinfo) (caps : Caps) (q : Pvt F) : Type 0 where
  by_pressure :
      (a : Absinfo)
      → is_multitouch caps ≡ true
      → has_axis caps abs_mt_pressure ≡ true
      → ask abs_mt_pressure ≡ some a
      → q.has_pressure ≡ true
      → q.contact_magmax ≡ a.maximum
      → Magnitude ask caps q
  by_size :
      (a : Absinfo)
      → is_multitouch caps ≡ true
      → has_axis caps abs_mt_pressure ≡ false
      → has_axis caps abs_mt_touch_major ≡ true
      → ask abs_mt_touch_major ≡ some a
      → q.has_pressure ≡ false
      → q.contact_magmax ≡ a.maximum
      → Magnitude ask caps q
  unmeasured :
      ((is_multitouch caps ≡ false)
        ⊎ ((has_axis caps abs_mt_pressure ≡ false) × (has_axis caps abs_mt_touch_major ≡ false)))
      → q.has_pressure ≡ false
      → q.contact_magmax ≡ pos 1
      → Magnitude ask caps q

-- No contact is there, all are at 0.
abbrev pub Untouched : {F : Type 0} → Pvt F → Type 0
Untouched q =
    (q.active_contact ≡ minus_one)
    × (q.contact_ids ≡ replicate 64 minus_one)
    × (q.contact_x ≡ replicate 64 (pos 0))
    × (q.contact_y ≡ replicate 64 (pos 0))
    × (q.contact_mag ≡ replicate 64 (pos 0))

-- The ranges are the kernel's, of each axis that the device has.
abbrev pub Answered : {F : Type 0} → (ℕ → Option Absinfo) → Caps → Pvt F → Type 0
Answered ask caps q =
    (i : ℕ) → (abs_cnt ≤ i) ⊎ (has_axis caps i ≡ false) ⊎ (ask i ≡ some (q.absinfo i))

abbrev pub Fresh : {F : Type 0} → (ℕ → Option Absinfo) → Caps → Pvt F → Type 0
Fresh ask caps q =
    Untouched q
    × Answered ask caps q
    × Magnitude ask caps q
    × ((is_multitouch caps ≡ false) ⊎ (has_axis caps abs_mt_tracking_id ≡ true))

read_ranges-Answered :
    (ask : ℕ → Option Absinfo) (absbits : List ℕ) (n : ℕ) (f : ℕ → Absinfo) (i : ℕ)
    → read_ranges ask absbits n ≡ some f
    → i < n
    → bit_check absbits i abs_cnt ≡ true
    → ask i ≡ some (f i)
unfolding read_ranges
read_ranges-Answered ask absbits zero f i e lt has = absurd (omega arith)
read_ranges-Answered ask absbits (suc n) f i e lt has =
    elim (Option-cases (read_ranges ask absbits n)) [
      | inl fails ↦ absurd (ground arith)
      | inr (g, below) ↦ elim (Bool-cases (bit_check absbits n abs_cnt)) [
        | inl has_n ↦ elim (Option-cases (ask n)) [
          | inl fails ↦ absurd (ground arith)
          | inr (a, answer) ↦
              let same : (λ (k : ℕ). if k == n then a else g k) ≡ f = ground arith in
              subst (λ (r : ℕ → Absinfo). ask i ≡ some (r i)) same
                (elim (Bool-cases (i == n)) [
                  | inl t ↦
                      let at : i ≡ n = ground arith in
                      ap ask at ∙ answer ∙ ap some (sym (if_true _ _ t))
                  | inr f' ↦
                      read_ranges-Answered ask absbits n g i below (ground arith) has
                      ∙ ap some (sym (if_false _ _ f'))
                ])
        ]
        | inr no_axis ↦
            let same : g ≡ f = ground arith in
            let other : i < n = elim (Bool-cases (i == n)) [
              | inl t ↦
                  let at : i ≡ n = ground arith in
                  let has_n = subst (λ k. bit_check absbits k abs_cnt ≡ true) at has in
                  absurd (ground arith)
              | inr f' ↦ ground arith
            ] in
            subst (λ (r : ℕ → Absinfo). ask i ≡ some (r i)) same
              (read_ranges-Answered ask absbits n g i below other has)
      ]
    ]

module _ {F : Type 0} (ask : ℕ → Option Absinfo) (caps : Caps) (zero_f : F) (epoch : Timespec) where
  abbrev ranged : (ℕ → Absinfo) → Pvt F
  ranged ranges = with_ranges caps.keybits ranges (cleared zero_f epoch)

  surface-Fresh :
      (ranges : ℕ → Absinfo) (q : Pvt F)
      → bit_check caps.evbits ev_abs_bit ev_cnt ≡ true
      → read_ranges ask caps.absbits abs_cnt ≡ some ranges
      → setup_surface caps.absbits (ranged ranges) ≡ some q
      → Fresh ask caps q
  unfolding setup_surface with_ranges
  surface-Fresh ranges q abs known e = elim (Bool-cases (multi && not (axis abs_mt_tracking_id))) [
    | inl fails ↦ absurd (none-some (sym (if_true _ _ fails) ∙ e))
    | inr fine ↦
        subst (Fresh ask caps) (some_injective (sym (if_false _ _ fine) ∙ e))
          ((refl, refl, refl, refl, refl), answers, magnitude, tracked fine)
  ]
    where
      axis : ℕ → Bool
      axis k = bit_check caps.absbits k abs_cnt

      multi : Bool
      multi = axis abs_mt_slot && (axis abs_mt_position_x || axis abs_mt_position_y)

      measured : Pvt F
      measured = record (ranged ranges) {
        has_pressure = false || (multi && axis abs_mt_pressure);
        contact_magmax =
            if multi && axis abs_mt_pressure
            then (ranges abs_mt_pressure).maximum
            else if multi && axis abs_mt_touch_major
            then (ranges abs_mt_touch_major).maximum
            else pos 1;
      }

      answers : (i : ℕ) → (abs_cnt ≤ i) ⊎ (has_axis caps i ≡ false) ⊎ (ask i ≡ some (ranges i))
      answers i = elim (Bool-cases (has_axis caps i)) [
        | inr absent ↦ inr (inl absent)
        | inl has ↦ elim (Bool-cases (ltb i abs_cnt)) [
          | inl lt ↦ inr (
              inr (
                read_ranges-Answered ask caps.absbits abs_cnt ranges i known (ground arith)
                  (rw abs at has)))
          | inr ge ↦ inl (ground arith)
        ]
      ]

      answer : (i : ℕ) → i < abs_cnt → axis i ≡ true → ask i ≡ some (ranges i)
      answer i lt has = read_ranges-Answered ask caps.absbits abs_cnt ranges i known lt has

      magnitude : Magnitude ask caps measured
      magnitude = elim (Bool-cases multi) [
        | inr absent ↦ unmeasured (inl (rw abs absent)) (rw absent refl) (rw absent refl)
        | inl mt ↦ elim (Bool-cases (axis abs_mt_pressure)) [
          | inl pr ↦
              by_pressure (ranges abs_mt_pressure) (rw abs mt) (rw abs pr)
                (answer abs_mt_pressure (ground arith) pr) (rw (mt, pr) refl) (rw (mt, pr) refl)
          | inr np ↦ elim (Bool-cases (axis abs_mt_touch_major)) [
            | inl mj ↦
                by_size (ranges abs_mt_touch_major) (rw abs mt) (rw abs np) (rw abs mj)
                  (answer abs_mt_touch_major (ground arith) mj) (rw (mt, np) refl)
                  (rw (mt, np, mj) refl)
            | inr nj ↦
                unmeasured (inr (rw abs np, rw abs nj)) (rw (mt, np) refl) (rw (mt, np, nj) refl)
          ]
        ]
      ]

      tracked :
          (multi && not (axis abs_mt_tracking_id)) ≡ false
          → (is_multitouch caps ≡ false) ⊎ (has_axis caps abs_mt_tracking_id ≡ true)
      tracked fine = elim (Bool-cases multi) [
        | inr absent ↦ inl (rw abs absent)
        | inl mt ↦ elim (Bool-cases (axis abs_mt_tracking_id)) [
          | inl has ↦ inr (rw abs has)
          | inr absent ↦ absurd (ground arith)
        ]
      ]

  axes-Fresh : (q : Pvt F) → setup_axes ask caps (cleared zero_f epoch) ≡ some q → Fresh ask caps q
  unfolding setup_axes setup_ranged
  axes-Fresh q e = elim (Bool-cases (bit_check caps.evbits ev_abs_bit ev_cnt)) [
    | inr no_axes ↦
        subst (Fresh ask caps) (some_injective (sym (if_true _ _ (ap not no_axes)) ∙ e)) (
          (refl, refl, refl, refl, refl),
          (λ i. inr (inl (rw no_axes refl))),
          unmeasured (inl (rw no_axes refl)) refl refl,
          inl (rw no_axes refl),
        )
    | inl has_axes ↦
        go has_axes (read_ranges ask caps.absbits abs_cnt) refl
          (sym (if_false _ _ (ap not has_axes)) ∙ e)
  ]
    where
      go :
          bit_check caps.evbits ev_abs_bit ev_cnt ≡ true
          → (o : Option (ℕ → Absinfo)) → read_ranges ask caps.absbits abs_cnt ≡ o
          → setup_ranged caps (cleared zero_f epoch) o ≡ some q
          → Fresh ask caps q
      go has none known e = absurd (none-some e)
      go has (some ranges) known e = surface-Fresh ranges q has known e

  kept :
      (p q : Pvt F)
      → p.has_pressure ≡ q.has_pressure
      → p.contact_magmax ≡ q.contact_magmax
      → Magnitude ask caps p
      → Magnitude ask caps q
  kept p q h m (by_pressure a x y z u v) = by_pressure a x y z (sym h ∙ u) (sym m ∙ v)
  kept p q h m (by_size a x y z w u v) = by_size a x y z w (sym h ∙ u) (sym m ∙ v)
  kept p q h m (unmeasured x u v) = unmeasured x (sym h ∙ u) (sym m ∙ v)

-- A device that evdev_instantiate sets up, where the kernel's ranges are not empty, has its contacts
-- in bounds and has no contact: the ids are -1, and the positions and magnitudes 0. The range of each
-- axis that it has is the kernel's answer. A multitouch surface has tracking ids, and measures its
-- contacts by the pressure, else by the size, with the kernel's maximum; any other device does not
-- measure them, and the maximum is 1.
pub evdev_setup-Fresh :
    {F : Type 0} (zero_f : F) (epoch now : Timespec) (o : Options) (cls : Class)
    (ask : ℕ → Option Absinfo) (caps : Caps) (q : Pvt F)
    → ((i : ℕ) (a : Absinfo) → ask i ≡ some a → Ordered a)
    → evdev_setup zero_f epoch now o cls ask caps ≡ some q
    → Placed q × Fresh ask caps q
unfolding evdev_setup finish_setup evdev_load_settings
evdev_setup-Fresh {F} zero_f epoch now o cls ask caps q h e = (
  evdev_setup-Placed zero_f epoch now o cls ask caps q h e,
  go (setup_axes ask caps (cleared zero_f epoch))
      (λ p known. axes-Fresh ask caps zero_f epoch p known) e,
)
  where
    go :
        (r : Option (Pvt F))
        → ((p : Pvt F) → r ≡ some p → Fresh ask caps p)
        → finish_setup now o cls r ≡ some q
        → Fresh ask caps q
    go none known e = absurd (none-some e)
    go (some p) known e =
        let (untouched, answers, magnitude, tracked) = known p refl in
        subst (Fresh ask caps) (some_injective e)
          (untouched, answers, kept ask caps zero_f epoch p _ refl refl magnitude, tracked)
