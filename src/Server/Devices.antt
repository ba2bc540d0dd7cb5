-- ===== src/Server/Devices.antt =====
-- platform/linux/input.c, generic_flush and input_flush_all_devices: dropping pending input. The
-- loop of generic_flush runs as long as input arrives, so it takes fuel.
use gtscreen.Prelude.{
  ℕ, zero, suc, true, false, ◌||◌, none, some, List, [], ◌∷◌, map, if◌then◌else◌, pure, ◌>>=◌, ◌>>◌,
  ok, stuck, Status, success, failure,
}
use gtscreen.Os.{
  Os, World, Answer, done, failed, is_eintr, is_eagain, tcflush, select, read, enter, set_errno,
}
use gtscreen.Server.State.{Device, Cmd, get, modify, call}

-- A read, or a `select`, on the state of the server.
abbrev pub ask : {A : Type 0} → (World → World × Answer A) → Cmd (Answer A)
ask f s = ok (f s.world).1 (record s { world = (f s.world).0 })

abbrev pub failing : {A : Type 0} → World → Answer A → World
failing w (done _) = w
failing w (failed e) = set_errno e w

unfoldable pub flush_loop : Os → ℕ → ℕ → Cmd Status
flush_loop os zero fd s = stuck
flush_loop os (suc k) fd s =
    let w = failing (enter (select fd) s.world) (os.select s.world.log fd) in
    let again = λ (v : World). flush_loop os k fd (record s { world = v }) in
    let v = failing (enter (read fd 1024) w) (os.read w.log fd 1024) in
    elim (os.select s.world.log fd) [
      | failed e ↦ if is_eintr e then again w else ok failure (record s { world = w })
      | done false ↦ ok success (record s { world = w })
      | done true ↦ elim (os.read w.log fd 1024) [
        | failed e ↦
            if is_eintr e || is_eagain e then again v else ok failure (record s { world = v })
        | done [] ↦ ok success (record s { world = v })
        | done (_ ∷ _) ↦ again v
      ]
    ]

unfoldable pub generic_flush : Os → ℕ → ℕ → Cmd Status
unfolding flush_loop
generic_flush os fuel fd = do call (tcflush fd); flush_loop os fuel fd

-- A device without a descriptor is passed over; the others lose their button state.
abbrev pub released : Device → Device
released d = record d { btn_down = map (λ _. 0) d.btn_down }

unfoldable pub flush_devices : Os → ℕ → List Device → Cmd (List Device × Status)
unfolding generic_flush
flush_devices os fuel [] = pure ([], success)
flush_devices os fuel (d ∷ ds) = elim d.fd [
  | none ↦ do (ds', r) ← flush_devices os fuel ds; pure (d ∷ ds', r)
  | some fd ↦ do
    r ← generic_flush os fuel fd
    (ds', r') ← flush_devices os fuel ds
    pure (released d ∷ ds', elim r [ success ↦ r' | failure ↦ failure ])
]

unfoldable pub input_flush_all_devices : Os → ℕ → Cmd Status
unfolding flush_devices
input_flush_all_devices os fuel = do
  ds ← get (λ r. r.devices)
  (ds', r) ← flush_devices os fuel ds
  modify (λ s. record s { devices = ds' })
  pure r
