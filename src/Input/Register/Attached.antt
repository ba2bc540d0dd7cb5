-- ===== src/Input/Register/Attached.antt =====
-- platform/linux/input.c: the handlers of the poll table against the devices that were loaded.
use gtscreen.Prelude.{
  ℕ, ◌+◌, ◌-◌, ◌<◌, ◌≤◌, ◌≡◌, refl, ◌⊎◌, inl, inr, true, false, Option, none, some, List, [], ◌∷◌,
  arith, leb, success, failure, pos, Bool-cases, All, subst, sym, ap,
}
use gtscreen.Os.{Os, World}
use gtscreen.Fdpoll.{Handler, Node, add, remove}
use gtscreen.Server.Clients.{fdpollin}
use gtscreen.Input.Driver.{Pvt}
use gtscreen.Input.Evdev.Placed.{Placed}
use gtscreen.Input.Register.{Reader, Entry, Registry, add_device, detach, kept, attach}

module _ {C : Type 0} where
  -- A new node stands before the others.
  abbrev pub Inserted : Handler C → ℕ → C → Handler C → Type 0
  Inserted h fd cb h' =
      (n : Node C) × (n.fd ≡ fd) × (n.cb ≡ some cb) × (h'.list ≡ n ∷ h.list) × (0 < h'.count)

  pub add-Inserted :
      (os : Os) (h : Handler C) (fd flags : ℕ) (cb : C) (w : World)
      → let r = add os h (pos fd) flags (some cb) w in
        ((r.2 ≡ failure) × (r.0 ≡ h)) ⊎ ((r.2 ≡ success) × Inserted h fd cb r.0)
  unfolding add
  add-Inserted os h fd flags cb w = ground arith

  remove-first :
      (os : Os) (h : Handler C) (fd : ℕ) (w : World) (n : Node C) (ns : List (Node C))
      → h.list ≡ n ∷ ns
      → n.fd ≡ fd
      → 0 < h.count
      → (remove os h fd w).0.list ≡ ns
  unfolding remove
  remove-first os h fd w n ns e f p = ground arith

-- Device ids are positive and fall from the head of the list on, so that no two are the same.
abbrev pub Numbered : {F : Type 0} → List (Entry F) → ℕ → Type 0
Numbered [] n = Unit {0}
Numbered (d ∷ ds) n = (0 < d.device_id) × (d.device_id ≤ n) × Numbered ds (d.device_id - 1)

abbrev pub Driven : {F : Type 0} → Option (Pvt F) → Type 0
Driven none = Unit {0}
Driven (some p) = Placed p

module _ {F C : Type 0} (reader : Reader → ℕ → C) where
  -- The node calls one of the three functions, on the device.
  abbrev pub Calls : Node C → Entry F → Type 0
  Calls n d = (n.fd ≡ d.fd) × (k : Reader) × (n.cb ≡ some (reader k d.addr))

  -- The table holds one node for each device, in order, and then the nodes it had before.
  abbrev pub Attached : List (Entry F) → List (Node C) → List (Node C) → Type 0
  Attached [] nodes old = nodes ≡ old
  Attached (d ∷ ds) [] old = ⊥
  Attached (d ∷ ds) (n ∷ ns) old = Calls n d × Attached ds ns old

  pub record IsRegistry (old : List (Node C)) (r : Registry F C) : Type 0 where
    pub attached : Attached r.devices r.handler.list old
    pub numbered : Numbered r.devices r.new_id
    pub id_bound : r.new_id ≤ 255
    pub drivers : All (λ (d : Entry F). Driven d.driver) r.devices

module _ {F C : Type 0} (reader : Reader → ℕ → C) (os : Os) (old : List (Node C)) where
  -- A step that changes nothing but the handlers, and these not.
  pub same-IsRegistry :
      (r : Registry F C) (h : Handler C) (w : World)
      → h.list ≡ r.handler.list
      → IsRegistry reader old r
      → IsRegistry reader old (record r { handler = h; world = w })
  same-IsRegistry r h w e i = record {
    attached = subst (λ ns. Attached reader r.devices ns old) (sym e) i.attached;
    numbered = i.numbered;
    id_bound = i.id_bound;
    drivers = i.drivers;
  }

  listed-IsRegistry :
      (k : Reader) (dev : Entry F) (r : Registry F C) (h : Handler C) (w : World)
      → IsRegistry reader old r
      → Driven dev.driver
      → Inserted r.handler dev.fd (reader k dev.addr) h
      → r.new_id < 255
      → IsRegistry reader old (record {
        handler = h;
        world = w;
        devices = record dev { device_id = r.new_id + 1 } ∷ r.devices;
        new_id = r.new_id + 1;
      })
  listed-IsRegistry k dev r h w i driven (n, at, calls, inserted, _) lt = record {
    attached =
        subst (λ ns. Attached reader (record dev { device_id = r.new_id + 1 } ∷ r.devices) ns old)
          (sym inserted) ((at, k, calls), i.attached);
    numbered =
        (omega arith, omega arith, subst (λ m. Numbered r.devices m) (omega arith) i.numbered);
    id_bound = omega arith;
    drivers = (driven, i.drivers);
  }

  add_device-room :
      (dev : Entry F) (r : Registry F C)
      → leb 255 r.new_id ≡ false
      → add_device os reader dev r ≡ (
        record r {
          devices = record dev { device_id = r.new_id + 1 } ∷ r.devices;
          new_id = r.new_id + 1;
        },
        success,
      )
  unfolding add_device
  add_device-room dev r room = rw room refl

  add_device-full :
      (dev : Entry F) (r : Registry F C)
      → leb 255 r.new_id ≡ true
      → add_device os reader dev r ≡ (r, failure)
  unfolding add_device
  add_device-full dev r full = rw full refl

  pub attach-IsRegistry :
      (k : Reader) (dev : Entry F) (undo : World → World) (r : Registry F C)
      → IsRegistry reader old r
      → Driven dev.driver
      → IsRegistry reader old (attach os reader k dev undo r).0
  unfolding attach kept detach
  attach-IsRegistry k dev undo r i driven =
      let added = add os r.handler (pos dev.fd) fdpollin (some (reader k dev.addr)) r.world in
      let polled : Registry F C = record r { handler = added.0; world = added.1 } in
      elim (add-Inserted os r.handler dev.fd fdpollin (reader k dev.addr) r.world) [
        | inl (fails, same) ↦ rw (attach, fails) (same-IsRegistry r _ _ (ap (λ h. h.list) same) i)
        | inr (works, inserted) ↦ elim (Bool-cases (leb 255 r.new_id)) [
          | inl full ↦
              rw (attach, works, add_device-full dev polled full)
                (same-IsRegistry r _ _
                  (remove-first os _ dev.fd _ inserted.0 r.handler.list inserted.3 inserted.1
                    inserted.4)
                  i)
          | inr room ↦
              rw (attach, works, add_device-room dev polled room)
                (listed-IsRegistry k dev r _ _ i driven inserted (ground arith))
        ]
      ]
