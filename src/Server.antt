-- ===== src/Server.antt =====
-- platform/linux/server.c, platform.h and screen.c: the display server. `struct client` objects live
-- on a heap, since screens, the pending list, the callback data, the free list and the array of
-- clients to synchronise all point at them; a chain through `next` is the list of its addresses.
pub mod State
pub mod Sync
pub mod Clients
pub mod Sprite
pub mod Messages
pub mod Screens
pub mod Callbacks
pub mod Update
pub mod Devices
pub mod Init
