-- ===== src/Input.antt =====
-- platform/linux/input.c: the drivers of input devices.
pub mod Keycodes
pub mod Kernel
pub mod Keymap
pub mod Buttons
pub mod Driver
pub mod Time
pub mod Keys
pub mod Surface
pub mod Pointer
pub mod Evdev
pub mod Discover
pub mod Setup
pub mod Register
pub mod Streams
pub mod Callbacks
