-- ===== src/Lib.antt =====
-- gtscreen: a display server for Linux. Clients connect over a Unix socket, register a sprite in
-- memory that they share with the server, and ask it to copy damaged regions of the sprite to the
-- scanout buffer. The server is one process with one loop: it waits for events on its descriptors
-- (the listening socket, the clients, the drm device, the input devices), runs a callback for each,
-- synchronises the clients that asked for it, and frees the clients that went away. Events of the
-- input devices are translated and sent to the focused client.
--
-- Files and the code they are about (paths from the repository's root):
--   Prelude, Prelude/*  shared types and helpers: tests on numbers, lists, outcomes of code.
--   Os                  the system calls. Each answer is a function of the log of all calls so far,
--                       so that every behaviour of the kernel and of malloc is a value of `Os`.
--   Fdpoll, Fdpoll/*    platform/fdpoll-handler.c and .h: the table of handlers (fdpoll_handler_add,
--                       _remove as `add`, `remove`), and fdpoll_handler_poll (`poll`). Table sees the
--                       handlers as a map; Invariant holds well-formedness; Poll/Removal
--                       and Poll/Dangling are on the removals of one poll.
--   Protocol            spr16.h: messages, their bytes, their constants. Encoding: round trips.
--   Message             platform/linux/messages.c: spr16_write_msg, spr16_read_msgs,
--                       spr16_reassemble_fragment, afunix_send_fd. Write, Fragment, Framing and
--                       Receive hold the proofs.
--   Server/State        struct client, screen, server_context (spr16.h, screen.h,
--                       platform/linux/platform.h) and access to them.
--   Server/Clients      platform/linux/server.c: server_addclient, server_connect_client,
--                       server_remove_client, server_free_client and what they use. Search,
--                       Freeing, Pending.
--   Server/Sprite       spr16_server_register_sprite, spr16_create_memfd. Registration.
--   Server/Sync         accumulate_dmg, spr16_server_sync, server_sync_fullscreen. Damage, Request.
--   Server/Messages     handle_ack, handle_nack, spr16_dispatch_server_msgs. Loop, Whole,
--                       Handshake.
--   Server/Screens      main_screen_switch, hotkey_callback. Rotation.
--   Server/Callbacks    listener_callback, client_callback.
--   Server/Update       spr16_server_update, server_free_list, spr16_server_shutdown. Slots, Free.
--   Server/Init         open_log, server_create_socket, spr16_server_init. Listening.
--   Server/Devices      platform/linux/input.c: generic_flush, input_flush_all_devices.
--   Fb, Fb/*            platform/linux/fb.c: copy_to_fb, fb_sync_client, fb_drm_fd_callback.
--                       Copy is on one region, Regions on all of a client, Vblank/Spin on events.
--   Client, Client/*    platform/linux/client.c: spr16_client_handshake_start, recv_fd,
--                       spr16_dispatch_client_msgs, spr16_client_update, spr16_client_connect. The
--                       program that uses the library is a parameter. Agreement and Connect/Path
--                       are on both sides, client and server.
--   Message/Descriptor  afunix_recv_fd (platform/linux/messages.c).
--   Input/Keycodes      spr16.h: the key codes of the protocol. Input/Kernel, Keymap: those of the
--                       kernel and the tables of evdev_translate_keycode, evdev_translate_btns.
--   Input/Buttons       platform/linux/input.c: bit_set, bit_clear, bit_check, set_input_msg. Pressed.
--   Input/Driver, Time  struct drv_evdev_pvt; usecs_elapsed, usecs_subtract. Time/Elapsed.
--   Input/Keys          evdev_translate_keycode, evdev_translate_btns, preempt_keycodes. Codes,
--                       Preempted.
--   Input/Surface       clamp_abs, set_id, get_id, consume_surface_report (Events). Bounds, Safe,
--                       Moves and Report are on the arrays of contacts, Progress and Consumed on
--                       the number of events taken.
--   Input/Pointer       apply_curve, abs_to_trackpad, check_tap_dist.
--   Input/Evdev         get_focused_client, update_state, transceive_evdev: the cases of its loop in
--                       Events, the read around it in Transceive. Placed, Loop and Ends.
--   Input/Discover      check_environ, find_most_capable. Environment, Chosen.
--   Input/Setup         evdev_instantiate: the state of the driver that it makes. Fresh,
--                       Measured.
--   Input/Register      add_device, evdev_instantiate, load_stream, load_linux_input_drivers, on the
--                       list of devices and the table of handlers. Attached, Marked, Loaded.
--   Input/Streams       transceive_ascii, transceive_raw.
--   Input/Callbacks     the three transceive functions on the device of their node, as the server's
--                       poll calls them.
--   Start, Start/*      main.c: read_environ (Ranges), read_socket_name, read_args (Arguments),
--                       check_fs and main up to the handler table (Main, Ready).
--   Tests, Tests/*      concrete inputs and runs.
--
-- State. A function of the server is a command: it takes the whole state (handler table, log and
-- errno, server) and returns a result with the new state, or `fault` when it reads memory that was
-- freed, or `stuck` when a loop has used up its fuel. Clients live in a store from addresses to
-- clients, in which a freed address holds nothing; lists of clients are lists of addresses, as the
-- `next` pointers make them. A result of 0 or -1 is `success` or `failure`. Printing is left out.
--
-- Bounds. Numbers are unsigned; a cast or an operation on uint16_t or uint32_t has its `%` written
-- out. Structures have the layout of the 32-bit build of the Makefile, and the pixel grid is its
-- PIXL_ALIGN of 32. Loops that the code bounds have that bound (1001 writes, 100 reads, 4999 sends of
-- a descriptor and as many receptions, 5001 waits for vblank, one round of a handshake's wait for
-- each millisecond). The walk over a full read has 961 rounds, more than the bytes of the read; the
-- dispatch of a buffer has one round more than its bytes, the loop over input events one more than
-- the events. The loops without a bound in the code (a servinfo on a full socket, the read of drm
-- events and the walk over them, the flush of a device, reads of a device that are interrupted, a
-- client's wait for events and its dropping of messages) take fuel from the caller.
--
-- Values of events and coordinates of contacts are integers whose differences are taken not to leave
-- the range of int. Floats are a parameter, the record `Float` of the operations that the code uses:
-- nothing is assumed of them; in the state of the server they are bit patterns. A long and the
-- results of strtol and strtoul have 32 bits. What the kernel says of a device (its bits and ranges),
-- the entries of /dev/input, and the answers of the calls that make the sockets, the log and the
-- directory are arguments.
--
-- Not modelled: mode setting and virtual terminals, signal handlers, the start of the parts by
-- server_main, the assembly of the block copy, the example programs and the Xorg driver.
pub mod Prelude
pub mod Os
pub mod Fdpoll
pub mod Protocol
pub mod Message
pub mod Server
pub mod Fb
pub mod Client
pub mod Input
pub mod Start
pub mod Tests
