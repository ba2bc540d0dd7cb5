-- ===== src/Message.antt =====
-- platform/linux/messages.c: writing a message, and reading a buffer of messages from a stream
-- socket. The buffer `g_msgbuf` is a value that is passed in and returned, since it keeps the bytes
-- of earlier reads.
pub mod Write
pub mod Fragment
pub mod Framing
pub mod Receive
pub mod Descriptor
use gtscreen.Prelude.{
  ℕ, zero, suc, ◌+◌, ◌-◌, ◌<◌, ◌^◌, ◌≡◌, Bool, true, false, ◌||◌, Option, none, some, List, [], ◌∷◌,
  ◌++◌, ltb, leb, ◌==◌, if◌then◌else◌, length, take, drop, Status, success, failure, arith,
}
use gtscreen.Os.{
  Os, World, Answer, done, failed, Errno, zero_errno, eagain, eproto, is_eintr, write, read,
  send_fd, enter, set_errno, Call,
}
use gtscreen.Protocol.{
  MsgHdr, Ack, maxmsglen, msg_servinfo, msg_register_sprite, msg_ack, msg_sync, msg_input,
  msg_input_surface, hdr_size, servinfo_size, register_size, ack_size, sync_size, input_size,
  input_surface_size, get16, encode_hdr, encode_ack,
}

-- The length of the structure that follows a header, 0xffffffff for an unknown type.
unfoldable pub get_msghdr_typelen : ℕ → ℕ
get_msghdr_typelen type =
    if type == msg_servinfo
    then servinfo_size
    else if type == msg_register_sprite
    then register_size
    else if type == msg_input
    then input_size
    else if type == msg_input_surface
    then input_surface_size
    else if type == msg_ack
    then ack_size
    else if type == msg_sync
    then sync_size
    else 2 ^ 32 - 1

-- `write` again after EINTR, `retries` more times.
write_tries : Os → ℕ → ℕ → List ℕ → World → World × Status
write_tries os zero fd msg w =
    let v = set_errno zero_errno w in
    elim (os.write v.log fd msg) [
      | done _ ↦ (enter (write fd msg) v, success)
      | failed e ↦ (set_errno (if is_eintr e then eagain else e) (enter (write fd msg) v), failure)
    ]
write_tries os (suc k) fd msg w =
    let v = set_errno zero_errno w in
    let again = write_tries os k fd msg (set_errno zero_errno (enter (write fd msg) v)) in
    elim (os.write v.log fd msg) [
      | done _ ↦ (enter (write fd msg) v, success)
      | failed e ↦ if is_eintr e then again else (set_errno e (enter (write fd msg) v), failure)
    ]

abbrev pub max_intr : ℕ
max_intr = 1000

-- `msg` is the header with its data.
pub write_msg : Os → ℕ → List ℕ → World → World × Status
write_msg os fd msg w = write_tries os max_intr fd msg w

abbrev ack_msg : ℕ → ℕ → List ℕ
ack_msg ack info =
    encode_hdr (record { type = msg_ack; bits = 0 })
      (encode_ack (record { info = info; ack = ack }) [])

pub send_ack : Os → ℕ → ℕ → World → World × Status
send_ack os fd info w = write_msg os fd (ack_msg 1 info) w

pub send_nack : Os → ℕ → ℕ → World → World × Status
send_nack os fd info w = write_msg os fd (ack_msg 0 info) w

-- MAX_MSGBUF_READ, sizeof(g_msgbuf) and MIN_MSGBUF_READ
abbrev pub max_msgbuf_read : ℕ
max_msgbuf_read = 960

abbrev pub msgbuf_size : ℕ
msgbuf_size = 1024

abbrev pub min_msgbuf_read : ℕ
min_msgbuf_read = 6

-- `bytes` stored in the buffer from `pos` on.
abbrev pub overlay : List ℕ → ℕ → List ℕ → List ℕ
overlay buf pos bytes = take pos buf ++ (bytes ++ drop (pos + length bytes) buf)

-- The walk over whole messages to the first that ends at or behind `max_msgbuf_read`.
pub data Walk : Type 0 where
  stop : ℕ → ℕ → Walk  -- rdpos, msglen
  unknown : Walk
  spent : Walk

unfoldable pub find_fragment : ℕ → List ℕ → ℕ → ℕ → Walk
find_fragment zero buf rdpos msglen = spent
find_fragment (suc k) buf rdpos msglen =
    let typelen = get_msghdr_typelen (get16 buf rdpos) in
    let next = find_fragment k buf (rdpos + (hdr_size + typelen)) (hdr_size + typelen) in
    if ltb rdpos max_msgbuf_read
    then (if ltb (maxmsglen - hdr_size) typelen then unknown else next)
    else stop rdpos msglen

-- The second read, again after EINTR.
read_tries : Os → ℕ → ℕ → ℕ → World → World × Answer (List ℕ)
read_tries os zero fd n w = elim (os.read w.log fd n) [
  | done bytes ↦ (enter (read fd n) w, done bytes)
  | failed e ↦ (set_errno e (enter (read fd n) w), failed e)
]
read_tries os (suc k) fd n w =
    let again = read_tries os k fd n (enter (read fd n) w) in
    elim (os.read w.log fd n) [
      | done bytes ↦ (enter (read fd n) w, done bytes)
      | failed e ↦ if is_eintr e then again else (set_errno e (enter (read fd n) w), failed e)
    ]

-- What a function that fills the buffer returns: the buffer, the state, and the length.
abbrev pub Filled : Type 0
Filled = List ℕ × World × Option ℕ

-- The second read, when `fragbytes` of the last message are there. Any error but EINTR, and a
-- short read, end as EPROTO.
read_rest : Os → ℕ → List ℕ → ℕ → ℕ → World → Filled
read_rest os fd buf msglen fragbytes w =
    let left = msglen - fragbytes in
    let (v, r) = read_tries os 99 fd left w in
    if (left == 0) || ltb maxmsglen (left + fragbytes)
    then (buf, set_errno eproto w, none)
    else elim r [
      | failed e ↦ (buf, (if is_eintr e then v else set_errno eproto v), none)
      | done bytes ↦
          if length bytes == left
          then (overlay buf max_msgbuf_read bytes, v, some (max_msgbuf_read + length bytes))
          else (overlay buf max_msgbuf_read bytes, set_errno eproto v, none)
    ]

pub reassemble_fragment : Os → ℕ → List ℕ → World → Filled
reassemble_fragment os fd buf w = elim (find_fragment 961 buf 0 0) [
  | spent ↦ (buf, w, none)
  | unknown ↦ (buf, set_errno eproto w, none)
  | stop rdpos msglen ↦
      let fragbytes = msglen - (rdpos - max_msgbuf_read) in
      if fragbytes == msglen
      then (buf, w, some max_msgbuf_read)
      else if ltb fragbytes 2
      then (buf, set_errno eproto w, none)
      else read_rest os fd buf msglen fragbytes w
]

-- The check of the final length.
check_length : Filled → Filled
check_length (buf, w, none) = (buf, w, none)
check_length (buf, w, some n) =
    if ltb msgbuf_size n || ltb n min_msgbuf_read
    then (buf, set_errno eproto w, none)
    else (buf, w, some n)

pub read_msgs : Os → ℕ → List ℕ → World → Filled
unfolding check_length
read_msgs os fd buf w = elim (os.read w.log fd max_msgbuf_read) [
  | failed e ↦ (buf, set_errno e (enter (read fd max_msgbuf_read) w), none)
  | done bytes ↦
      let buf' = overlay buf 0 bytes in
      let v = enter (read fd max_msgbuf_read) w in
      if length bytes == max_msgbuf_read
      then check_length (reassemble_fragment os fd buf' v)
      else check_length (buf', v, some (length bytes))
]

-- The loop of afunix_send_fd: `--c > 0` allows 4999 calls.
send_fd_tries : Os → ℕ → ℕ → ℕ → World → World × Status
send_fd_tries os zero sock fd w = (w, failure)
send_fd_tries os (suc k) sock fd w =
    let again = send_fd_tries os k sock fd (enter (send_fd sock fd) w) in
    elim (os.send_fd w.log sock fd) [
      | done n ↦ (enter (send_fd sock fd) w, (if n == 1 then success else failure))
      | failed e ↦ if is_eintr e then again else (set_errno e (enter (send_fd sock fd) w), failure)
    ]

-- The descriptors are none of them -1 here.
pub afunix_send_fd : Os → ℕ → ℕ → World → World × Status
afunix_send_fd os sock fd w = send_fd_tries os 4999 sock fd w
