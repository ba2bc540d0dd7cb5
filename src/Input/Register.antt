-- ===== src/Input/Register.antt =====
-- platform/linux/input.c: add_device, evdev_instantiate with its memory and its handler, load_stream
-- and load_linux_input_drivers. What `open` and the ioctl calls answer is an argument.
pub mod Attached
pub mod Marked
pub mod Loaded
use gtscreen.Prelude.{
  ℕ, ◌+◌, Bool, true, false, Option, none, some, List, [], ◌∷◌, leb, ◌==◌, if◌then◌else◌, Status,
  success, failure, ℤ, pos,
}
use gtscreen.Os.{Os, World, malloc, free, enter}
use gtscreen.Fdpoll.{Handler, add, remove}
use gtscreen.Server.Clients.{fdpollin}
use gtscreen.Start.{Text, Options}
use gtscreen.Input.Driver.{Pvt, Absinfo, Timespec}
use gtscreen.Input.Discover.{Caps, Class, keyboard, mouse, touch, Probe, find_device}
use gtscreen.Input.Setup.{evdev_setup}

-- The functions that are registered for a device: transceive_evdev, _ascii and _raw.
pub data Reader : Type 0 where
  evdev_reader ascii_reader raw_reader : Reader

-- `struct input_device` at its address: `driver` is its `private`, and `has_hotkey` tells whether
-- func_hotkey is set.
pub record Entry (F : Type 0) : Type 0 where
  pub addr : ℕ
  pub path : Text
  pub name : Text
  pub fd : ℕ
  pub device_id : ℕ
  pub has_hotkey : Bool
  pub driver : Option (Pvt F)

-- The handler table, the list of devices and g_new_id.
pub record Registry (F C : Type 0) : Type 0 where
  pub handler : Handler C
  pub world : World
  pub devices : List (Entry F)
  pub new_id : ℕ

-- A device that could be opened: its descriptor and the answers of the ioctl calls.
pub record Opened : Type 0 where
  pub fd : ℕ
  pub name : Option Text
  pub caps : Option Caps
  pub ranges : ℕ → Option Absinfo

abbrev pub uint8_max : ℕ
uint8_max = 255

abbrev pub stdin_fileno : ℕ
stdin_fileno = 0

abbrev pub ascii_name : Text
ascii_name = b'a' ∷ b's' ∷ b'c' ∷ b'i' ∷ b'i' ∷ 45 ∷ b's' ∷ b't' ∷ b'r' ∷ b'e' ∷ b'a' ∷ b'm' ∷ []

abbrev pub raw_name : Text
raw_name = b'r' ∷ b'a' ∷ b'w' ∷ 45 ∷ b's' ∷ b't' ∷ b'r' ∷ b'e' ∷ b'a' ∷ b'm' ∷ []

-- err_free
abbrev pub free_both : ℕ → ℕ → World → World
free_both dev pvt w = enter (free dev) (enter (free pvt) w)

abbrev pub map_head : {F : Type 0} → (Entry F → Entry F) → List (Entry F) → List (Entry F)
map_head f [] = []
map_head f (d ∷ ds) = f d ∷ ds

module _ {F C : Type 0} where
  abbrev pub with_world : (World → World) → Registry F C → Registry F C
  with_world f r = record r { world = f r.world }

  abbrev pub on_head : (Entry F → Entry F) → Registry F C → Registry F C
  on_head f r = record r { devices = map_head f r.devices }

  unfoldable pub on_success : (Entry F → Entry F) → Registry F C × Status → Registry F C
  on_success f (r, success) = on_head f r
  on_success f (r, failure) = r

  -- What is freed when a step failed.
  unfoldable pub or_freed : (World → World) → Registry F C × Status → Registry F C × Status
  or_freed f (r, success) = (r, success)
  or_freed f (r, failure) = (with_world f r, failure)

module _ {F : Type 0} where
  abbrev pub stream_entry : Bool → ℕ → ℕ → Entry F
  stream_entry ascii dev fd = record {
    addr = dev;
    path = [];
    name = if ascii then ascii_name else raw_name;
    fd = fd;
    device_id = 0;
    has_hotkey = false;
    driver = none;
  }

  abbrev pub evdev_entry : Opened → Text → Text → ℕ → Pvt F → Entry F
  evdev_entry o path name dev p = record {
    addr = dev;
    path = path;
    name = name;
    fd = o.fd;
    device_id = 0;
    has_hotkey = false;
    driver = some p;
  }

  unfoldable pub tracking : Bool → Option (Pvt F) → Option (Pvt F)
  tracking trackpad none = none
  tracking trackpad (some p) = some (if trackpad then record p { is_trackpad = true } else p)

  -- The keyboard takes the hotkeys, and a touch device may act as a trackpad.
  unfoldable pub mark : Bool → Bool → Class → Entry F → Entry F
  unfolding tracking
  mark hk trackpad keyboard d = record d { has_hotkey = hk }
  mark hk trackpad mouse d = d
  mark hk trackpad touch d = record d { driver = tracking trackpad d.driver }

-- `reader`: the callback of a table's node, from the function and its `user_data`.
module _ {F C : Type 0} (os : Os) (reader : Reader → ℕ → C) where
  unfoldable pub add_device : Entry F → Registry F C → Registry F C × Status
  add_device dev r = if leb uint8_max r.new_id then (r, failure) else (
    record r {
      devices = record dev { device_id = r.new_id + 1 } ∷ r.devices;
      new_id = r.new_id + 1;
    },
    success,
  )

  -- The handler of a device that could not be listed is removed again.
  unfoldable pub detach : ℕ → Registry F C → Registry F C
  detach fd r =
      let removed = remove os r.handler fd r.world in
      record r { handler = removed.0; world = removed.1 }

  -- `undo` comes before the removal.
  unfoldable pub kept :
      ℕ → (World → World) → Registry F C → Registry F C × Status → Registry F C × Status
  unfolding detach
  kept fd undo polled (r, success) = (r, success)
  kept fd undo polled (r, failure) =
      (detach fd (record polled { world = undo polled.world }), failure)

  -- The handler is added, then the device is listed.
  unfoldable pub attach : Reader → Entry F → (World → World) → Registry F C → Registry F C × Status
  unfolding add_device kept
  attach k dev undo r =
      let added = add os r.handler (pos dev.fd) fdpollin (some (reader k dev.addr)) r.world in
      let polled = record r { handler = added.0; world = added.1 } in
      elim added.2 [
        | failure ↦ (polled, failure)
        | success ↦ kept dev.fd undo polled (add_device dev polled)
      ]

  unfoldable pub configure :
      Opened → Text → Text → ℕ → ℕ → Option (Pvt F) → Registry F C → Registry F C × Status
  unfolding attach or_freed
  configure o path name dev pvt none r = (with_world (free_both dev pvt) r, failure)
  configure o path name dev pvt (some p) r =
      or_freed (free_both dev pvt) (attach evdev_reader (evdev_entry o path name dev p) (λ w. w) r)

  -- The descriptor is not closed when a later step fails.
  unfoldable pub evdev_instantiate :
      F
      → Timespec
      → Timespec
      → Options
      → Option Opened
      → Text
      → Class
      → Registry F C
      → Registry F C × Status
  unfolding configure
  evdev_instantiate zero_f epoch now opts none path cls r = (r, failure)
  evdev_instantiate zero_f epoch now opts (some o) path cls r =
      let set_up : Option (Pvt F) = elim o.caps [
        | none ↦ none
        | some c ↦ evdev_setup zero_f epoch now opts cls o.ranges c
      ] in
      let w = enter malloc r.world in
      let v = enter malloc w in
      elim o.name [
        | none ↦ (r, failure)
        | some name ↦ elim (os.malloc r.world.log) [
          | none ↦ (record r { world = w }, failure)
          | some dev ↦ elim (os.malloc w.log) [
            | none ↦ (record r { world = enter (free dev) v }, failure)
            | some pvt ↦ configure o path name dev pvt set_up (record r { world = v })
          ]
        ]
      ]

  -- Mode 1 is ascii, any other raw. A device whose handler is not added is not freed.
  unfoldable pub load_stream : ℕ → ℕ → Registry F C → Registry F C × Status
  unfolding attach
  load_stream streamfd mode r =
      let ascii = mode == 1 in
      let w = enter malloc r.world in
      elim (os.malloc r.world.log) [
        | none ↦ (record r { world = w }, failure)
        | some dev ↦
            attach (if ascii then ascii_reader else raw_reader) (stream_entry ascii dev streamfd)
              (enter (free dev)) (record r { world = w })
      ]

-- What the drivers meet when they are loaded: the environment and the directory at the time of each
-- class, the answers of opening a path, and the clock.
pub record Surroundings (F : Type 0) : Type 0 where
  pub zero_f : F
  pub epoch : Timespec
  pub now : Class → Timespec
  pub options : Options
  pub variable : Class → Option Text
  pub dir : Class → Option (List (Text × Probe))
  pub opened : Text → Option Opened
  pub trackpad : Bool

module _ {F C : Type 0} (os : Os) (reader : Reader → ℕ → C) (env : Surroundings F) where
  unfoldable pub load_class : Bool → Class → Registry F C → Registry F C
  unfolding evdev_instantiate mark on_success
  load_class hk cls r = elim (find_device cls (env.variable cls) (env.dir cls)) [
    | none ↦ r
    | some path ↦ on_success (mark hk env.trackpad cls) (
        evdev_instantiate os reader env.zero_f env.epoch (env.now cls) env.options (env.opened path)
          path cls r)
  ]

  unfoldable pub load_linux_input_drivers : ℕ → Bool → Bool → Registry F C → Registry F C
  unfolding load_class load_stream
  load_linux_input_drivers stdin_mode evdev hk r =
      let streamed =
        if stdin_mode == 1
        then (load_stream os reader stdin_fileno 1 r).0
        else if stdin_mode == 2
        then (load_stream os reader stdin_fileno 2 r).0
        else r in
      if evdev
      then load_class hk touch (load_class hk mouse (load_class hk keyboard streamed))
      else streamed
