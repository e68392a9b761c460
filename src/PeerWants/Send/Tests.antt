-- ===== src/PeerWants/Send/Tests.antt =====
-- Runs of the peer want manager, and its properties at concrete inputs.
use boxo.Base.{
  ℕ, ◌≡◌, refl, true, false, ◌&&◌, ◌||◌, none, some, List, [], ◌∷◌, ◌++◌, nat_key, ℕ_discrete,
  contains, is_some, append_new, IsDistinct,
}
use boxo.Base.Map.{lookup, insert, delete, delete_all}
use boxo.Base.Nested.{get2, put2, del2, restore}
use boxo.Base.ListSet.{list_sets}
use boxo.Base.Sets.{without}
use boxo.PeerWants.{
  Effect, Manager, wanted, new, count_from, want_peer_counts, reverse_index_add,
  reverse_index_remove, add_peer, clean_blocks, clean_haves, remove_peer, forward_wants,
  forward_haves, add_wants, add_cancels, add_forward_wants, dec_wants, dec_blocks, inc_blocks,
  graph_remove,
}
use boxo.PeerWants.Send.{
  cancel_from, remove_all, add_keys, as_block, as_have, store, cancel_peers, broadcast_new,
  broadcast_to, broadcast_want_haves, send_blocks, send_haves, send_wants, send_cancel,
  send_cancels_to, cancel_gauges, send_cancels, all_blocks, all_haves, get_want_blocks,
  get_want_haves, get_wants,
}
use boxo.PeerWants.Send.Index.{sent, IsIndexed}
use boxo.PeerWants.Send.Cancel.{send_cancels_lem}
use boxo.PeerWants.Send.Told.{cancels}
use boxo.PeerWants.Send.Sending.{only_gauges, send_wants_lem}
use boxo.PeerWants.Send.Broadcast.{broadcasts, broadcast_want_haves_lem}
use boxo.PeerWants.Send.History.{
  Call, connect, disconnect, broadcast, send, cancel, run, step, run-IsIndexed,
}

program : Unit {0}
unfolding wanted new count_from want_peer_counts reverse_index_add reverse_index_remove add_peer
    clean_blocks clean_haves remove_peer forward_wants forward_haves cancel_from remove_all add_keys
    as_block as_have store cancel_peers broadcast_new broadcast_to broadcast_want_haves send_blocks
    send_haves send_wants send_cancel send_cancels_to cancel_gauges send_cancels all_blocks
    all_haves get_want_blocks get_want_haves get_wants lookup insert delete delete_all get2 put2
    del2 restore append_new without ℕ_discrete broadcasts run step
program = tt

abbrev Pwm : Type 0
Pwm = Manager ℕ ℕ (List ℕ)

-- peers 1 and 2, of which the first was sent a want-block for CID 10 and a want-have for CID 11
abbrev start : Pwm
start =
    (send_wants {Addr = ℕ} (add_peer {Addr = ℕ} (add_peer {Addr = ℕ} new 1).0 2).0 1 (10 ∷ [])
      (10 ∷ 11 ∷ [])).0

start_test :
    (get_wants start ≡ 10 ∷ 11 ∷ [])
    × (get_want_blocks start ≡ 10 ∷ [])
    × ((send_wants {Addr = ℕ} start 1 (11 ∷ []) (10 ∷ [])).1
        ≡ inc_blocks ∷ add_wants 1 (11 ∷ []) [] ∷ [])
    × ((send_cancels {Addr = ℕ} start (11 ∷ [])).1 ≡ add_cancels 1 (11 ∷ []) ∷ dec_wants ∷ [])
    × ((remove_peer {Addr = ℕ} start 1).1
        ≡ graph_remove 1 ∷ dec_blocks ∷ dec_wants ∷ dec_wants ∷ [])
    × (forward_wants {Addr = ℕ} start 10 none (some 2)
        ≡ (add_forward_wants 2 (10 ∷ []) ∷ [], some 2))
unfolding program
start_test = (refl, refl, refl, refl, refl, refl)

new-IsIndexed : IsIndexed {Cid = ℕ} {Peer = ℕ} {Set = List ℕ} new
unfolding program
new-IsIndexed p c = refl

abbrev calls : List (Call ℕ ℕ)
calls =
    connect 1
    ∷ connect 2
    ∷ send 1 (10 ∷ []) (11 ∷ [])
    ∷ broadcast (11 ∷ 12 ∷ [])
    ∷ cancel (11 ∷ [])
    ∷ disconnect 2
    ∷ []

run-IsIndexed_example : IsIndexed (run {Set = List ℕ} ℕ new calls)
run-IsIndexed_example = run-IsIndexed ℕ new calls new-IsIndexed

start-IsIndexed : IsIndexed start
unfolding program
start-IsIndexed =
    run-IsIndexed {Set = List ℕ} ℕ new
      (connect 1 ∷ connect 2 ∷ send 1 (10 ∷ []) (10 ∷ 11 ∷ []) ∷ []) new-IsIndexed

send_cancels_lem_example :
    (sent (send_cancels {Addr = ℕ} start (10 ∷ [])).0 1 10 ≡ (sent start 1 10 && false))
    × (is_some (get2 10 1 (send_cancels {Addr = ℕ} start (10 ∷ [])).0.want_peers)
        ≡ (sent start 1 10 && false))
    × (contains 10 (send_cancels {Addr = ℕ} start (10 ∷ [])).0.broadcast_wants ≡ false)
    × (cancels 1 10 (send_cancels {Addr = ℕ} start (10 ∷ [])).1 ≡ true)
unfolding program
send_cancels_lem_example = send_cancels_lem ℕ start (10 ∷ []) 1 10 start-IsIndexed

broadcast_want_haves_lem_example :
    (contains 11 (broadcast_want_haves {Addr = ℕ} start (11 ∷ [])).0.broadcast_wants ≡ true)
    × (broadcasts 2 11 (broadcast_want_haves {Addr = ℕ} start (11 ∷ [])).1 ≡ true)
unfolding program
broadcast_want_haves_lem_example =
    broadcast_want_haves_lem ℕ start (11 ∷ []) 2 11 (refl, (refl, tt))

send_wants_lem_example :
    (gauges : List (Effect ℕ ℕ ℕ)) × (bs : List ℕ) × (hs : List ℕ) × ((send_wants start 1
        (11 ∷ [])
        (12 ∷ [])).1
      ≡ gauges ++ add_wants 1 bs hs ∷ [])
    × (only_gauges gauges ≡ true)
    × IsDistinct bs
    × IsDistinct hs
    × (contains 12 bs ≡ false)
    × (contains 12 hs ≡ true)
    × (sent (send_wants {Addr = ℕ} start 1 (11 ∷ []) (12 ∷ [])).0 1 12
        ≡ (false || (contains 12 bs || contains 12 hs)))
unfolding program
send_wants_lem_example =
    send_wants_lem ℕ start 1 (record { want_blocks = 10 ∷ []; want_haves = 11 ∷ [] }) (11 ∷ [])
      (12 ∷ []) 12 refl
