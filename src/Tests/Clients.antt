-- ===== src/Tests/Clients.antt =====
-- Clients and their messages: inputs for the theorems, and runs.
use gtscreen.Prelude.{
  Ends, pure, ◌+◌, ℕ, ◌≡◌, ◌⊎◌, refl, true, none, some, List, [], ◌∷◌, arith, Returns, success,
  failure, fault, stuck,
}
use gtscreen.Protocol.{decode_hdr, RegisterSprite}
use gtscreen.Server.State.{S, find_client}
use gtscreen.Server.Clients.{getclient, find_on_screens, free_client, add_pending, servinfo}
use gtscreen.Server.Clients.Freeing.{Listed, free_client-FreeList}
use gtscreen.Server.Clients.Pending.{add_pending_dangles, servinfo_spins}
use gtscreen.Server.Sprite.{register_sprite}
use gtscreen.Server.Sprite.Registration.{Outcome, register_sprite-Outcome}
use gtscreen.Server.Messages.{client_handshake, dispatch_from, dispatch_round}
use gtscreen.Server.Messages.Handshake.{Joined, Unready, client_handshake-Joined}
use gtscreen.Server.Messages.Whole.{handled, dispatch_round-Framed}
use gtscreen.Message.{get_msghdr_typelen}
use gtscreen.Message.Framing.{Framed, end, more}
use gtscreen.Server.Messages.Loop.{Stalled, dispatch_from_ends}
use gtscreen.Server.Update.{free_all}
use gtscreen.Server.Update.Free.{Gone, free_all-Gone}
use gtscreen.Tests.{table-IsValid, calm, clogged, table, server, state, shown, fresh, registered}

free_client-FreeList_example : Returns (free_client calm 50 state) (Listed 50 shown)
free_client-FreeList_example =
    free_client-FreeList calm 50 shown state refl table-IsValid (tt, ground arith)

-- Both clients are to be freed.
abbrev freeing : S
freeing = record state { rest = record server { free_list = 60 ∷ 50 ∷ [] } }

free_all-Gone_example :
    Returns (free_all calm freeing) (λ _ t. Gone freeing (60 ∷ 50 ∷ []) t × (t.rest.free_list ≡ []))
free_all-Gone_example =
    free_all-Gone calm freeing (refl, (refl, tt)) ((fresh, refl), ((shown, refl), tt))

abbrev request : RegisterSprite
request = record { name = []; flags = 0; width = 64; height = 2; bpp = 32 }

register_sprite-Outcome_example :
    Returns (register_sprite calm 6 request state) (Outcome calm 6 60 fresh request state)
unfolding getclient find_on_screens find_client
register_sprite-Outcome_example = register_sprite-Outcome calm 6 60 request fresh state refl refl

-- The pending client has registered.
abbrev registering : S
registering = record state { rest = record server { clients = λ p. some registered } }

client_handshake-Joined_example : Returns (client_handshake calm 60 registering) (λ r t.
    (Unready calm registered registering × (r ≡ failure) × (t.rest ≡ registering.rest))
    ⊎ ((registered.handshaking ≡ true)
        × (a : ℕ) × (calm.malloc registering.world.log ≡ some a)
        × (r ≡ success)
        × Joined a 60 registering t))
unfolding find_client
client_handshake-Joined_example = client_handshake-Joined calm 60 registered registering refl refl

abbrev acks : List ℕ
acks = 104 ∷ 0 ∷ 0 ∷ 0 ∷ 1 ∷ 0 ∷ 1 ∷ 0 ∷ []

dispatch_from_ends_example :
    Ends (dispatch_from calm 5 60 acks 8 9 0 state) (Stalled calm 5 60 acks 8)
dispatch_from_ends_example =
    dispatch_from_ends calm 5 60 acks 8 9 0 state (ground arith) (ground arith)

acks-Framed : Framed acks 8 0
unfolding get_msghdr_typelen
acks-Framed = more (ground arith) (end refl)

dispatch_round-Framed_example :
    (dispatch_round calm 5 60 acks 8 0 (pure success) state
      ≡ handled calm 5 60 acks 0 (pure success) state)
    × Framed acks 8 (0 + (4 + get_msghdr_typelen (decode_hdr acks 0).type))
dispatch_round-Framed_example =
    dispatch_round-Framed calm 5 60 acks 8 0 (pure success) state acks-Framed (ground arith)

abbrev crowded : S
crowded = record state { handler = record table { count = 2048 } }

add_pending_dangles_example : Returns (add_pending calm 60 6 crowded) (λ r t.
    (r ≡ failure)
    × (t.rest.pending ≡ 60 ∷ 60 ∷ [])
    × (t.rest.clients 60 ≡ none)
    × (find_client t.rest.pending 8 t ≡ fault))
add_pending_dangles_example = add_pending_dangles calm 60 6 fresh crowded 8 refl (ground arith)

servinfo_spins_example : servinfo clogged 1000 6 state ≡ stuck
servinfo_spins_example = servinfo_spins clogged 1000 6 state (λ log msg. refl)
