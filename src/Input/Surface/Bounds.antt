-- ===== src/Input/Surface/Bounds.antt =====
-- platform/linux/input.c, consume_surface_report: the arrays of contacts and their bounds.
use gtscreen.Prelude.{
  ℕ, ◌<◌, ◌≡◌, refl, ◌⊎◌, inl, inr, Bool, true, false, List, arith, ℤ, pos, negsuc, ◌-ℤ◌, ◌≤ℤ◌,
  -ℤ_parts, set, length, length-set, All, All-set, All-mono,
}
use gtscreen.Input.Driver.{Pvt, Absinfo}
use gtscreen.Input.Surface.{
  Scan, Step, next, ended, overrun, Contact, clamp_abs, is_negative, abs_mt_position_x,
  abs_mt_position_y,
}

-- From 0 to a maximum.
abbrev pub Within : ℤ → ℤ → Type 0
Within max v = (pos 0 ≤ℤ v) × (v ≤ℤ max)

-- The clamped value lies between 0 and the length of the range, inverted or not.
pub clamp_abs-Within :
    (val min max : ℤ) (invert : Bool)
    → min ≤ℤ max
    → Within (clamp_abs val min max invert).1 (clamp_abs val min max invert).0
unfolding clamp_abs ◌-ℤ◌
clamp_abs-Within val min max invert h = ground arith

-- One axis of the contacts: a value for each, between 0 and the maximum that clients are told, which
-- is 0 until the first report.
pub record IsAxis (a : Absinfo) (max : ℤ) (vs : List ℤ) : Type 0 where
  pub size : length vs ≡ 64
  pub within : All (Within max) vs
  pub known : (max ≡ pos 0) ⊎ (max ≡ a.maximum -ℤ a.minimum)
  pub ordered : a.minimum ≤ℤ a.maximum

-- The arrays of contacts.
pub record Contacts {F : Type 0} (pvt : Pvt F) : Type 0 where
  pub ids : length pvt.contact_ids ≡ 64
  pub mags : length pvt.contact_mag ≡ 64
  pub x_axis : IsAxis (pvt.absinfo abs_mt_position_x) pvt.contact_xmax pvt.contact_x
  pub y_axis : IsAxis (pvt.absinfo abs_mt_position_y) pvt.contact_ymax pvt.contact_y

-- No contact, or one of the 64.
abbrev pub Slot : ℤ → Type 0
Slot (pos c) = c < 64
Slot (negsuc _) = Unit {0}

-- What a client is told of a contact.
abbrev pub InField : Contact → Type 0
InField m = (m.code < 64) × Within m.xmax m.xpos × Within m.ymax m.ypos

pub record ScanOk {F : Type 0} (s : Scan F) : Type 0 where
  pub contacts : Contacts s.pvt
  pub slot : Slot s.active_contact
  pub idle_id : is_negative s.active_contact ≡ true → is_negative s.active_id ≡ true
  pub idle_msg : is_negative s.active_contact ≡ true → s.send_msg ≡ false
  pub told : All InField s.sent

abbrev pub StepOk : {F : Type 0} → Step F → Type 0
StepOk (next s) = ScanOk s
StepOk (ended s) = ScanOk s
StepOk overrun = ⊥

Within-mono : (max max' v : ℤ) → max ≤ℤ max' → Within max v → Within max' v
Within-mono max max' v h w = (w.0, omega arith)

-ℤ_nonneg : (a b : ℤ) → b ≤ℤ a → pos 0 ≤ℤ a -ℤ b
-ℤ_nonneg a b h = omega (arith, -ℤ_parts a b)

clamp_abs-range : (v min max : ℤ) (invert : Bool) → (clamp_abs v min max invert).1 ≡ max -ℤ min
unfolding clamp_abs
clamp_abs-range v min max invert = refl

-- A clamped value on an axis.
pub clamp_abs-IsAxis :
    (a : Absinfo) (max v : ℤ) (vs : List ℤ) (invert : Bool) (c : ℕ)
    → IsAxis a max vs
    → let r = clamp_abs v a.minimum a.maximum invert in IsAxis a r.1 (set vs c r.0)
clamp_abs-IsAxis a max v vs invert c h =
    let r = clamp_abs v a.minimum a.maximum invert in
    let range : r.1 ≡ a.maximum -ℤ a.minimum = clamp_abs-range v a.minimum a.maximum invert in
    let grows : max ≤ℤ r.1 = elim h.known [
      | inl zero_max ↦ rw (zero_max, range) (-ℤ_nonneg a.maximum a.minimum h.ordered)
      | inr full ↦ rw (full, range) (omega arith)
    ] in
    record {
      size = rw (length-set vs c r.0) h.size;
      within =
          All-set (Within r.1) vs c r.0
            (All-mono (Within max) (Within r.1) vs (λ u w. Within-mono max r.1 u grows w) h.within)
            (clamp_abs-Within v a.minimum a.maximum invert h.ordered);
      known = inr range;
      ordered = h.ordered;
    }
