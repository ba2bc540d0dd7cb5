-- ===== src/Input/Register/Loaded.antt =====
-- platform/linux/input.c: what loading the drivers does to the devices and their handlers.
use gtscreen.Prelude.{ℕ, ◌≡◌, some}
use gtscreen.Os.{Os}
use gtscreen.Start.{Text}
use gtscreen.Input.Driver.{Absinfo}
use gtscreen.Input.Setup.Fresh.{Ordered}
use gtscreen.Input.Register.{Opened, Surroundings}

-- The kernel's ranges are not empty.
abbrev pub Ranged : Opened → Type 0
Ranged o = (i : ℕ) (a : Absinfo) → o.ranges i ≡ some a → Ordered a

-- Of every device that can be opened, the kernel's ranges are not empty.
abbrev pub Sound : {F : Type 0} → Surroundings F → Type 0
Sound env = (path : Text) (o : Opened) → env.opened path ≡ some o → Ranged o
