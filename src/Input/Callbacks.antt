-- ===== src/Input/Callbacks.antt =====
-- platform/linux/input.c: transceive_evdev, transceive_ascii and transceive_raw as callbacks of the
-- poll handler, which calls them with the address of their device.
use gtscreen.Prelude.{
  ℕ, zero, suc, Option, none, some, List, [], ◌∷◌, ◌==◌, if◌then◌else◌, pure, ◌>>=◌, ◌>>◌, fault,
}
use gtscreen.Os.{Os, Log}
use gtscreen.Protocol.{Input}
use gtscreen.Fdpoll.Poll.{Code}
use gtscreen.Server.State.{Device, Cmd, get, modify}
use gtscreen.Input.Driver.{Pvt, Mute, Timespec}
use gtscreen.Input.Pointer.{Float}
use gtscreen.Input.Evdev.Transceive.{transceive_evdev}
use gtscreen.Input.Streams.{transceive_ascii, transceive_raw}

-- What the callbacks meet: the operations on floats as bit patterns, the answers of clock_gettime,
-- and what stands in the parts of messages that are not set.
pub record Senses : Type 0 where
  pub floats : Float ℕ
  pub clock : Log → Timespec
  pub junk : Input
  pub bits : ℕ

-- The device at an address, with its place in the list.
unfoldable pub device_at : List Device → ℕ → Option (ℕ × Device)
device_at [] a = none
device_at (d ∷ ds) a =
    let rest = device_at ds a in
    if d.addr == a
    then some (zero, d)
    else elim rest [ none ↦ none | some (i, e) ↦ some (suc i, e) ]

unfoldable pub set_driver : ℕ → Pvt ℕ → List Device → List Device
set_driver a pvt [] = []
set_driver a pvt (d ∷ ds) =
    (if d.addr == a then record d { driver = some pvt } else d) ∷ set_driver a pvt ds

abbrev pub set_mute : Mute → Cmd (Unit {0})
set_mute mute = modify (λ r. record r { mute = mute })

unfoldable pub evdev_callback : Os → ℕ → Senses → ℕ → ℕ → Cmd Code
unfolding device_at set_driver
evdev_callback os fuel on fd user_data = do
  found ← get (λ r. device_at r.devices user_data)
  mute ← get (λ r. r.mute)
  elim found [
    | none ↦ λ s. fault
    | some (self, d) ↦ elim d.driver [
      | none ↦ λ s. fault
      | some pvt ↦ λ s.
          (do
            (mute', pvt', code) ←
                transceive_evdev on.floats os fuel on.junk on.bits d.has_hotkey self d.device_id
                  mute (on.clock s.world.log) fd pvt
            set_mute mute'
            modify (λ r. record r { devices = set_driver user_data pvt' r.devices })
            pure code)
            s
    ]
  ]

unfoldable pub ascii_callback : Os → ℕ → Senses → ℕ → ℕ → Cmd Code
unfolding device_at
ascii_callback os fuel on fd user_data = do
  found ← get (λ r. device_at r.devices user_data)
  mute ← get (λ r. r.mute)
  elim found [
    | none ↦ λ s. fault
    | some (_, d) ↦ do
      (mute', code) ← transceive_ascii os fuel on.junk on.bits d.device_id mute fd
      set_mute mute'
      pure code
  ]

unfoldable pub raw_callback : Os → ℕ → Senses → ℕ → Cmd Code
unfolding device_at
raw_callback os fuel on user_data = do
  found ← get (λ r. device_at r.devices user_data)
  mute ← get (λ r. r.mute)
  elim found [
    | none ↦ λ s. fault
    | some (_, d) ↦ do
      (mute', code) ← transceive_raw os fuel on.junk on.bits d.device_id mute
      set_mute mute'
      pure code
  ]
