-- ===== src/Tests/Messages.antt =====
-- The messages: inputs for the theorems on their encoding and on the stream, and runs.
use gtscreen.Prelude.{
  ℕ, zero, suc, ◌-◌, ◌%◌, ◌^◌, ◌≤◌, ◌≡◌, ◌≢◌, ◌⊎◌, refl, List, [], ◌∷◌, arith, replicate,
  length-take, take,
}
use gtscreen.Os.{Os, done}
use gtscreen.Message.{get_msghdr_typelen, write_msg, find_fragment, read_msgs, spent}
use gtscreen.Message.Write.{Written, write_msg-Written}
use gtscreen.Message.Fragment.{typelen_bounds, find_fragment_ends}
use gtscreen.Message.Framing.{ReadsAtMost}
use gtscreen.Message.Receive.{Received, read_msgs-Received}
use gtscreen.Tests.{calm, quiet_world}

write_msg-Written_example :
    Written calm 1000 5 (1 ∷ 2 ∷ []) quiet_world.log (write_msg calm 5 (1 ∷ 2 ∷ []) quiet_world)
write_msg-Written_example = write_msg-Written calm 5 (1 ∷ 2 ∷ []) quiet_world

typelen_bounds_example :
    (get_msghdr_typelen 105 ≡ 2 ^ 32 - 1)
    ⊎ ((4 ≤ get_msghdr_typelen 105)
        × (get_msghdr_typelen 105 ≤ 44)
        × (get_msghdr_typelen 105 % 2 ≡ 0))
typelen_bounds_example = typelen_bounds 105

-- A buffer of one ACK after the other.
abbrev acks : ℕ → List ℕ
acks zero = []
acks (suc n) = 104 ∷ 0 ∷ 0 ∷ 0 ∷ 1 ∷ 0 ∷ 1 ∷ 0 ∷ acks n

find_fragment_ends_example : find_fragment 12 (acks 128) 952 8 ≢ spent
find_fragment_ends_example = find_fragment_ends 12 (acks 128) 952 8 (ground arith) (ground arith)

-- A socket on which one message more is there at each read.
abbrev stream : Os
stream = record calm { read = λ log fd n. done (take n (acks 1)) }

stream-ReadsAtMost : ReadsAtMost stream
stream-ReadsAtMost log fd n bytes e = ground (arith, length-take n (acks 1))

read_msgs-Received_example : Received (read_msgs stream 5 (replicate 1024 0) quiet_world)
read_msgs-Received_example =
    read_msgs-Received stream stream-ReadsAtMost 5 (replicate 1024 0) quiet_world refl
