-- ===== src/Tests/Fdpoll.antt =====
-- The handler table: inputs for its theorems, and runs.
use gtscreen.Prelude.{
  has, none, if◌then◌else◌, ℕ, ◌≡◌, refl, some, [], ◌∷◌, arith, success, failure, ok, fault, M,
  drop, suc, Returns, length, pos, ◌⊎◌,
}
use gtscreen.Fdpoll.{add, remove, find_node}
use gtscreen.Fdpoll.Table.{Added, lookup, lookup-add, lookup-remove}
use gtscreen.Fdpoll.Invariant.{IsValid, add-IsValid, remove-IsValid, remove_absent_drifts}
use gtscreen.Fdpoll.Poll.{remove_queued, Code, code_ok, node_at, handle_event}
use gtscreen.Fdpoll.Poll.Removal.{remove_queued-Returns}
use gtscreen.Fdpoll.Poll.Dangling.{self_removal_faults}
use gtscreen.Server.State.{Callback, S}
use gtscreen.Tests.{table-IsValid, calm, quiet_world, table, state, callback}

lookup-add_example :
    let r = add calm table (pos 7) 1 (some (callback 3)) quiet_world in
    ((r.2 ≡ failure) × (r.0 ≡ table))
    ⊎ ((r.2 ≡ success) × Added table (pos 7) (some (callback 3)) 7 r.0)
lookup-add_example = lookup-add calm table (pos 7) 1 (some (callback 3)) quiet_world 7

add-IsValid_example : IsValid (add calm table (pos 7) 1 (some (callback 3)) quiet_world).0
add-IsValid_example = add-IsValid calm table (pos 7) 1 (some (callback 3)) quiet_world table-IsValid

lookup-remove_example :
    let r = remove calm table 5 quiet_world in
    (lookup r.0 6 ≡ some (callback 2)) × (suc r.0.count ≡ 2)
unfolding find_node
lookup-remove_example = lookup-remove calm table 5 quiet_world 6 (refl, (refl, tt)) refl refl

remove-IsValid_example : IsValid (remove calm table 5 quiet_world).0
unfolding find_node
remove-IsValid_example = remove-IsValid calm table 5 quiet_world refl table-IsValid

remove_absent_drifts_example :
    let r = remove calm table 9 quiet_world in
    (r.2 ≡ failure) × (r.0.list ≡ table.list) × (suc r.0.count ≡ length r.0.list)
unfolding find_node
remove_absent_drifts_example =
    remove_absent_drifts calm table 9 quiet_world table-IsValid refl (ground arith)

remove_queued-Returns_example : Returns (remove_queued calm (5 ∷ 6 ∷ []) state) (λ _ t.
    IsValid t.handler
    × ((g : ℕ) → lookup t.handler g ≡ (if has g (5 ∷ 6 ∷ []) then none else lookup table g)))
unfolding find_node
remove_queued-Returns_example =
    remove_queued-Returns calm (5 ∷ 6 ∷ []) state table-IsValid (refl, (refl, tt))
      (refl, (refl, tt))

-- A callback that removes the handler of its descriptor itself.
abbrev removing : Callback → ℕ → ℕ → M S Code
removing c fd flags s =
    ok code_ok (record s { handler = record table { count = 1; list = drop 1 table.list } })

self_removal_faults_example :
    handle_event removing (record { flags = 16; ptr = 500 }) [] state ≡ fault
unfolding node_at
self_removal_faults_example =
    self_removal_faults removing (record { flags = 16; ptr = 500 }) [] state
      (record state { handler = record table { count = 1; list = drop 1 table.list } })
      (record { addr = 500; fd = 5; cb = some (callback 1) }) (callback 1) refl refl
      (λ h. ground arith) refl refl refl refl

-- The second removal of a descriptor fails, and leaves a count of zero with a handler in the table.
remove_twice :
    let once = (remove calm table 5 quiet_world).0 in
    let twice = (remove calm once 5 quiet_world).0 in (twice.count ≡ 0) × (length twice.list ≡ 1)
unfolding remove
remove_twice = (refl, refl)
