-- ===== src/Input/Setup/Fresh.antt =====
-- platform/linux/input.c, evdev_instantiate: the contacts of a device that was just set up.
use gtscreen.Prelude.{
  ℕ, zero, suc, ◌≡◌, refl, subst, sym, ap, ◌∙◌, inl, inr, Bool, true, false, not, ◌&&◌, ◌||◌,
  Option, none, some, List, arith, ◌==◌, if◌then◌else◌, Bool-cases, Option-cases, pos, ◌≤ℤ◌,
  replicate, All, if_true, if_false,
}
use gtscreen.Start.{Options}
use gtscreen.Input.Buttons.{bit_check}
use gtscreen.Input.Driver.{Pvt, Absinfo, Timespec}
use gtscreen.Input.Surface.{abs_mt_slot, abs_mt_tracking_id, abs_mt_position_x, abs_mt_position_y}
use gtscreen.Input.Surface.Bounds.{IsAxis, Within}
use gtscreen.Input.Evdev.Placed.{Placed}
use gtscreen.Input.Discover.{Caps, Class, abs_cnt}
use gtscreen.Input.Setup.{
  ev_abs_bit, ev_cnt, no_range, read_ranges, cleared, setup_surface, setup_axes, setup_ranged,
  with_ranges, finish_setup, evdev_load_settings, evdev_setup,
}

-- The kernel's ranges are not empty.
abbrev pub Ordered : Absinfo → Type 0
Ordered a = a.minimum ≤ℤ a.maximum

pub some_injective : {A : Type 0} {a b : A} → some a ≡ some b → a ≡ b
some_injective e = cc

pub none-some : {A : Type 0} {a : A} → none ≡ some a → ⊥
none-some e = cc

read_ranges-Ordered :
    (ask : ℕ → Option Absinfo) (absbits : List ℕ) (n : ℕ) (f : ℕ → Absinfo)
    → ((i : ℕ) (a : Absinfo) → ask i ≡ some a → Ordered a)
    → read_ranges ask absbits n ≡ some f
    → (i : ℕ) → Ordered (f i)
unfolding read_ranges
read_ranges-Ordered ask absbits zero f h e i =
    subst (λ (g : ℕ → Absinfo). Ordered (g i)) (some_injective e) (omega arith)
read_ranges-Ordered ask absbits (suc n) f h e i = elim (Option-cases (read_ranges ask absbits n)) [
  | inl fails ↦ absurd (ground arith)
  | inr (g, below) ↦ elim (Bool-cases (bit_check absbits n abs_cnt)) [
    | inl has_axis ↦ elim (Option-cases (ask n)) [
      | inl fails ↦ absurd (ground arith)
      | inr (a, answer) ↦
          let same : (λ (k : ℕ). if k == n then a else g k) ≡ f = ground arith in
          subst (λ (r : ℕ → Absinfo). Ordered (r i)) same
            (choose (i == n) a (g i) (h n a answer) (read_ranges-Ordered ask absbits n g h below i))
    ]
    | inr no_axis ↦
        let same : g ≡ f = ground arith in
        subst (λ (r : ℕ → Absinfo). Ordered (r i)) same
          (read_ranges-Ordered ask absbits n g h below i)
  ]
]
  where
    choose : (b : Bool) (x y : Absinfo) → Ordered x → Ordered y → Ordered (if b then x else y)
    choose true x y p q = p
    choose false x y p q = q

zeros-Within : (n : ℕ) → All (Within (pos 0)) (replicate n (pos 0))
zeros-Within zero = tt
zeros-Within (suc n) = (omega arith, zeros-Within n)

pub zero-IsAxis : (a : Absinfo) → Ordered a → IsAxis a (pos 0) (replicate 64 (pos 0))
zero-IsAxis a h = record { size = refl; within = zeros-Within 64; known = inl refl; ordered = h }

module _ {F : Type 0} where
  surface-Placed :
      (absbits : List ℕ) (p q : Pvt F) → Placed p → setup_surface absbits p ≡ some q → Placed q
  unfolding setup_surface
  surface-Placed absbits p q h e =
      let axis = λ (k : ℕ). bit_check absbits k abs_cnt in
      let multi = axis abs_mt_slot && (axis abs_mt_position_x || axis abs_mt_position_y) in
      elim (Bool-cases (multi && not (axis abs_mt_tracking_id))) [
        | inl fails ↦ absurd (none-some (sym (if_true _ _ fails) ∙ e))
        | inr fine ↦ subst Placed (some_injective (sym (if_false _ _ fine) ∙ e)) (record {
          contacts = record {
            ids = h.contacts.ids;
            mags = h.contacts.mags;
            x_axis = h.contacts.x_axis;
            y_axis = h.contacts.y_axis;
          };
          slot = h.slot;
        })
      ]

  axes-Placed :
      (ask : ℕ → Option Absinfo) (caps : Caps) (zero_f : F) (epoch : Timespec) (q : Pvt F)
      → ((i : ℕ) (a : Absinfo) → ask i ≡ some a → Ordered a)
      → setup_axes ask caps (cleared zero_f epoch) ≡ some q
      → Placed q
  unfolding setup_axes setup_ranged with_ranges
  axes-Placed ask caps zero_f epoch q h e =
      elim (Bool-cases (bit_check caps.evbits ev_abs_bit ev_cnt)) [
        | inr no_axes ↦
            subst Placed (some_injective (sym (if_true _ _ (ap not no_axes)) ∙ e)) (record {
              contacts = record {
                ids = refl;
                mags = refl;
                x_axis = zero-IsAxis no_range (omega arith);
                y_axis = zero-IsAxis no_range (omega arith);
              };
              slot = tt;
            })
        | inl has_axes ↦
            go (read_ranges ask caps.absbits abs_cnt)
              (λ ranges known. read_ranges-Ordered ask caps.absbits abs_cnt ranges h known)
              (sym (if_false _ _ (ap not has_axes)) ∙ e)
      ]
    where
      go :
          (o : Option (ℕ → Absinfo))
          → ((ranges : ℕ → Absinfo) → o ≡ some ranges → (i : ℕ) → Ordered (ranges i))
          → setup_ranged caps (cleared zero_f epoch) o ≡ some q
          → Placed q
      go none known e = absurd (none-some e)
      go (some ranges) known e =
          surface-Placed caps.absbits (with_ranges caps.keybits ranges (cleared zero_f epoch)) q
            (record {
              contacts = record {
                ids = refl;
                mags = refl;
                x_axis =
                    zero-IsAxis (ranges abs_mt_position_x) (known ranges refl abs_mt_position_x);
                y_axis =
                    zero-IsAxis (ranges abs_mt_position_y) (known ranges refl abs_mt_position_y);
              };
              slot = tt;
            })
            e

-- A device that evdev_instantiate sets up has its contacts in bounds, if the kernel's ranges are not
-- empty.
pub evdev_setup-Placed :
    {F : Type 0} (zero_f : F) (epoch now : Timespec) (o : Options) (cls : Class)
    (ask : ℕ → Option Absinfo) (caps : Caps) (q : Pvt F)
    → ((i : ℕ) (a : Absinfo) → ask i ≡ some a → Ordered a)
    → evdev_setup zero_f epoch now o cls ask caps ≡ some q
    → Placed q
unfolding evdev_setup finish_setup evdev_load_settings
evdev_setup-Placed {F} zero_f epoch now o cls ask caps q h e =
    go (setup_axes ask caps (cleared zero_f epoch))
      (λ p known. axes-Placed ask caps zero_f epoch p h known) e
  where
    go :
        (r : Option (Pvt F))
        → ((p : Pvt F) → r ≡ some p → Placed p)
        → finish_setup now o cls r ≡ some q
        → Placed q
    go none known e = absurd (none-some e)
    go (some p) known e =
        let placed = known p refl in
        subst Placed (some_injective e) (record {
          contacts = record {
            ids = placed.contacts.ids;
            mags = placed.contacts.mags;
            x_axis = placed.contacts.x_axis;
            y_axis = placed.contacts.y_axis;
          };
          slot = placed.slot;
        })
