-- ===== src/SessionSender/Tests.antt =====
-- Runs of the session want sender, and its properties at concrete inputs.
use boxo.Base.{
  ℕ, ◌+◌, ◌≡◌, refl, true, false, none, some, List, [], ◌∷◌, nat_key, ℕ_discrete, ltb, ◌⊎◌, is_some,
}
use boxo.Base.Map.{lookup, insert, delete, modify, has_key}
use boxo.Base.Sets.{insert_key, without}
use boxo.Base.ListSet.{list_sets}
use boxo.Base.Nested.{get2, put2}
use boxo.BlockPresence
use boxo.SessionPeers
use boxo.SessionSender.{
  dont_have, have, WantInfo, Sender, registers, tells, sends_wants, on_send, Change, Floats, World,
}
use boxo.SessionSender.Trackers.{
  received_block_from, get_peer_count, total_count, choose_at, choose, insert_keys,
  add_sent_want_blocks_to, have_sent_want_block_to,
}
use boxo.SessionSender.Infos.{
  rank, better_of, find_best, peers_with, new_want_info, best_of, calculate_best_peer,
  set_peer_block_presence, is_sent_to, presence_of, remove_peer,
}
use boxo.SessionSender.Wants.{
  untrack_want, reset_count, known, update_want_block_presence, update_for_peers, track_want,
  remove_peer_from, update_wants_for, update_wants_peer_availability, peer_moved, set_availability,
  process_availability,
}
use boxo.SessionSender.Updates.{
  clear_sent_to, remove_want, protect_sender, stop_waiting, receive_block, receive_blocks,
  receive_all, count_dont_have, receive_dont_have, receive_dont_haves, all_dont_haves, receive_have,
  receive_haves, all_haves, has_wanted, to_prune, prune, process_updates,
}
use boxo.SessionSender.Exhaustion.{
  set_exhausted, zero_cids, is_unflagged, newly_exhausted, process_exhausted_wants, check_wants,
  check_for_exhausted_wants,
}
use boxo.SessionSender.Sending.{
  add_all, for_peer, plan_block, plan_haves, next_receiver, set_sent_to, send_block, send_next,
  send_each, get_piggyback_want_haves, send_to, send_wants, send_next_wants,
}
use boxo.SessionSender.Changes.{
  new, add, cancel, update, signal_availability, collect_changes, untrack_all, note_update,
  note_availability, track_all, apply_change, apply_changes, process_changes, on_change,
}
use boxo.SessionSender.Less.{waits_for, AllFresh}
use boxo.SessionSender.Recorded.{asks}
use boxo.SessionSender.History.{receives}
use boxo.SessionSender.Outcomes.{
  run, run-IsAsked, run-AllFresh, on_change-has_key, on_change-Settles,
}

-- natural numbers in place of float64
instance abbrev whole : Floats ℕ
whole = record {
  nothing = 0;
  of_int = λ n. n;
  plus = λ a b. a + b;
  over = λ a b. a;
  exceeds = λ a b. ltb b a;
}

-- Peer 1 has said that it has block 10, and peer 2 that it does not.
abbrev bpm : BlockPresence.Manager ℕ ℕ
bpm = record { presence = (10, (1, true) ∷ (2, false) ∷ []) ∷ [] }

abbrev world : World ℕ ℕ ℕ
world = record { bpm = bpm; draw = λ c ps. 0 }

abbrev one_peer : SessionPeers.Manager ℕ
one_peer = record { peers = 2 ∷ []; peers_discovered = true }

abbrev wanted : Change ℕ ℕ
wanted = record { add = 10 ∷ []; cancel = []; update = none; availability = none }

abbrev says_have : Change ℕ ℕ
says_have = record {
  add = [];
  cancel = [];
  update = some (record { from = 1; received = []; haves = 10 ∷ []; dont_haves = [] });
  availability = none;
}

abbrev peer_gone : Change ℕ ℕ
peer_gone = record { add = []; cancel = []; update = none; availability = some (1, false) }

abbrev sends_block : Change ℕ ℕ
sends_block = record {
  add = [];
  cancel = [];
  update = some (record { from = 1; received = 10 ∷ []; haves = []; dont_haves = [] });
  availability = none;
}

program : Unit {0}
unfolding lookup insert delete modify insert_key without get2 put2 ℕ_discrete
    BlockPresence.peer_has_block BlockPresence.peer_does_not_have_block
    BlockPresence.all_peers_do_not_have_block BlockPresence.all_dont_have BlockPresence.none_has
    SessionPeers.has_peers SessionPeers.add_peer SessionPeers.protect_connection
    SessionPeers.remove_peer received_block_from get_peer_count total_count choose_at choose
    insert_keys add_sent_want_blocks_to have_sent_want_block_to better_of find_best peers_with
    new_want_info best_of calculate_best_peer set_peer_block_presence is_sent_to presence_of
    remove_peer untrack_want reset_count known update_want_block_presence update_for_peers
    track_want remove_peer_from update_wants_for update_wants_peer_availability peer_moved
    set_availability process_availability clear_sent_to remove_want protect_sender stop_waiting
    receive_block receive_blocks receive_all count_dont_have receive_dont_have receive_dont_haves
    all_dont_haves receive_have receive_haves all_haves has_wanted to_prune prune process_updates
    set_exhausted zero_cids is_unflagged newly_exhausted process_exhausted_wants check_wants
    check_for_exhausted_wants add_all for_peer plan_block plan_haves next_receiver set_sent_to
    send_block send_next send_each get_piggyback_want_haves send_to send_wants send_next_wants new
    add cancel update signal_availability collect_changes untrack_all note_update note_availability
    track_all apply_change apply_changes process_changes on_change waits_for asks receives run
program = tt

-- A want of block 10, then the HAVE of peer 1, then the block.
abbrev story : List (World ℕ ℕ ℕ × List (Change ℕ ℕ))
story = (world, wanted ∷ says_have ∷ []) ∷ (world, sends_block ∷ []) ∷ []

story_test :
    ((run (List ℕ) 0 story (new one_peer false)).1
      ≡ registers 1
        ∷ tells (SessionPeers.tag 1 ∷ [])
        ∷ sends_wants 1 (10 ∷ []) []
        ∷ on_send 1 (10 ∷ []) []
        ∷ registers 1
        ∷ tells (SessionPeers.protect 1 ∷ [])
        ∷ [])
    × ((run (List ℕ) 0 story (new one_peer false)).0.wants ≡ [])
unfolding program
story_test = (refl, refl)

-- A HAVE and the disconnection of its sender in one batch: the want-block goes to the peer that is gone.
gone_test :
    ((on_change
        (List ℕ)
        0
        world
        (wanted ∷ says_have ∷ peer_gone ∷ [])
        (new one_peer false)).0.peers.peers
      ≡ 2 ∷ [])
    × ((on_change (List ℕ) 0 world (wanted ∷ says_have ∷ peer_gone ∷ []) (new one_peer false)).1
        ≡ registers 1 ∷ sends_wants 1 (10 ∷ []) [] ∷ on_send 1 (10 ∷ []) [] ∷ [])
unfolding program
gone_test = (refl, refl)

-- The state in which the want waits for peer 1.
abbrev waiting : Sender ℕ ℕ
waiting = (on_change (List ℕ) 0 world (wanted ∷ says_have ∷ []) (new one_peer false)).0

run-IsAsked_example :
    asks 10 1 (run (List ℕ) 0 ((world, wanted ∷ says_have ∷ []) ∷ []) (new one_peer false)).1 ≡ true
unfolding program
run-IsAsked_example =
    run-IsAsked (List ℕ) 0 ((world, wanted ∷ says_have ∷ []) ∷ []) one_peer false 10 1 refl

new-AllFresh : AllFresh {Cid = ℕ} (new one_peer false)
unfolding program
new-AllFresh c wi e = absurd (cc)

run-AllFresh_example : AllFresh (run (List ℕ) 0 story (new one_peer false)).0
run-AllFresh_example = run-AllFresh (List ℕ) 0 story (new one_peer false) new-AllFresh

on_change-has_key_example :
    has_key 10 (on_change (List ℕ) 0 world (sends_block ∷ []) waiting).0.wants ≡ false
unfolding program
on_change-has_key_example = on_change-has_key (List ℕ) 0 world (sends_block ∷ []) waiting 10 refl

abbrev info : WantInfo ℕ
info = record {
  block_presence = (2, dont_have) ∷ (1, have) ∷ [];
  sent_to = some 1;
  best_peer = some 1;
  exhausted = false;
}

on_change-Settles_example :
    (is_some info.sent_to ≡ true) ⊎ ((q : ℕ) → rank (presence_of q info.block_presence) ≡ 0)
unfolding program
on_change-Settles_example =
    on_change-Settles (List ℕ) 0 world (wanted ∷ says_have ∷ []) (new one_peer false) new-AllFresh
      refl refl 10 info refl
