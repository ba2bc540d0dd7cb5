-- ===== src/Input/Discover/Chosen.antt =====
-- platform/linux/input.c, find_most_capable: the device that is chosen.
use gtscreen.Prelude.{
  ◌≤◌, ◌≡◌, subst, ap, length, ◌⊎◌, inl, inr, true, some, List, [], ◌∷◌, arith, ◌==◌, Bool-cases,
  Option-cases,
}
use gtscreen.Start.{Text, strncmp}
use gtscreen.Input.Buttons.{bit_count}
use gtscreen.Input.Discover.{
  Caps, Prospect, blank_prospect, Class, keyboard, mouse, touch, Probe, unopenable, broken, capable,
  devpfx, entry_path, possibly_keyboard, probably_surface, select_prp, prefer_keyboard, consider,
  search_dir, find_most_capable,
}

-- The capabilities that a class asks for.
abbrev pub Suits : Class → Caps → Type 0
Suits keyboard c = possibly_keyboard c.keybits ≡ true
Suits mouse c = 2 ≤ bit_count c.relbits
Suits touch c = probably_surface c.absbits c.keybits ≡ true

-- The path is that of an entry with a name in "event" and the capabilities of the class.
abbrev pub Among : Class → List (Text × Probe) → Text → Type 0
Among cls [] path = ⊥
Among cls ((name, unopenable) ∷ rest) path = Among cls rest path
Among cls ((name, broken) ∷ rest) path = Among cls rest path
Among cls ((name, capable c) ∷ rest) path =
    ((strncmp 5 name devpfx ≡ true) × Suits cls c × (path ≡ entry_path name)) ⊎ Among cls rest path

consider-path :
    (cls : Class) (path : Text) (c : Caps) (p : Prospect)
    → ((consider cls path c p).path ≡ p.path)
      ⊎ (((consider cls path c p).path ≡ path) × Suits cls c)
unfolding consider prefer_keyboard select_prp
consider-path keyboard path c p = ground arith
consider-path mouse path c p = ground arith
consider-path touch path c p = ground arith

search_dir-Among :
    (cls : Class) (entries : List (Text × Probe)) (p q : Prospect)
    → search_dir cls entries p ≡ some q
    → (q.path ≡ p.path) ⊎ Among cls entries q.path
unfolding search_dir
search_dir-Among cls [] p q h = inl (ground arith)
search_dir-Among cls ((name, unopenable) ∷ rest) p q h = search_dir-Among cls rest p q h
search_dir-Among cls ((name, broken) ∷ rest) p q h = elim (Bool-cases (strncmp 5 name devpfx)) [
  | inl fails ↦ absurd (ground arith)
  | inr other ↦ search_dir-Among cls rest p q (ground arith)
]
search_dir-Among cls ((name, capable c) ∷ rest) p q h = elim (Bool-cases (strncmp 5 name devpfx)) [
  | inl event ↦
      elim (search_dir-Among cls rest (consider cls (entry_path name) c p) q (ground arith)) [
        | inl same ↦ elim (consider-path cls (entry_path name) c p) [
          | inl kept ↦ inl (ground arith)
          | inr (chosen, suits) ↦ inr (inl (event, suits, ground arith))
        ]
        | inr later ↦ inr (inr later)
      ]
  | inr other ↦ elim (search_dir-Among cls rest p q (ground arith)) [
    | inl same ↦ inl same
    | inr later ↦ inr (inr later)
  ]
]

-- A device that find_most_capable returns is in the directory, can be opened, has a name that starts
-- with "event", and has the capabilities of the class.
pub find_most_capable-Among :
    (cls : Class) (entries : List (Text × Probe)) (q : Prospect)
    → find_most_capable cls (some entries) ≡ some q
    → Among cls entries q.path
unfolding find_most_capable
find_most_capable-Among cls entries q h =
    elim (Option-cases (search_dir cls entries blank_prospect)) [
      | inl fails ↦ absurd (ground arith)
      | inr (p, e) ↦ elim (Bool-cases (length p.path == 0)) [
        | inl empty ↦ absurd (ground arith)
        | inr full ↦
            let same : p ≡ q = ground arith in
            subst (λ (r : Prospect). Among cls entries r.path) same
              (elim (search_dir-Among cls entries blank_prospect p e) [
                | inl blank ↦ absurd (ground (arith, ap (λ (t : Text). length t) blank))
                | inr there ↦ there
              ])
      ]
    ]
