-- ===== src/BlockPresence/Tests.antt =====
-- Runs of the presence manager, and its properties at concrete inputs.
use boxo.Base.{◌≡◌, refl, true, false, some, [], ◌∷◌, nat_key, ℕ_discrete, ℕ, ◌&&◌, contains}
use boxo.Base.Map.{lookup, insert, delete}
use boxo.Base.Nested.{get2, put2}
use boxo.BlockPresence.{
  Manager, new, update, update_all, receive_from, peer_has_block, peer_does_not_have_block,
  none_has, all_dont_have, all_peers_do_not_have_block, remove_keys, tracks_key,
}
use boxo.BlockPresence.Knowledge.{
  known, all_deny, known-receive_from, contains-all_peers_do_not_have_block, have_persists,
}

program : Unit {0}
unfolding new update update_all receive_from peer_has_block peer_does_not_have_block none_has
    all_dont_have all_peers_do_not_have_block remove_keys tracks_key lookup insert delete get2 put2
    ℕ_discrete
program = tt

-- peer 1 has CID 10 and denies 11, peer 2 denies both
abbrev reported : Manager ℕ ℕ
reported = receive_from (receive_from new 1 (10 ∷ []) (11 ∷ [])) 2 [] (10 ∷ 11 ∷ [])

all_deny_test : all_peers_do_not_have_block reported (1 ∷ 2 ∷ []) (10 ∷ 11 ∷ 12 ∷ []) ≡ 11 ∷ []
unfolding program
all_deny_test = refl

known-receive_from_example :
    known (receive_from reported 2 (11 ∷ []) (10 ∷ 11 ∷ [])) 2 11 ≡ some true
unfolding program
known-receive_from_example = known-receive_from reported 2 2 11 (11 ∷ []) (10 ∷ 11 ∷ [])

contains-all_peers_do_not_have_block_example :
    contains 11 (all_peers_do_not_have_block reported (1 ∷ 2 ∷ []) (10 ∷ 11 ∷ []))
    ≡ (tracks_key reported 11 && all_deny reported (1 ∷ 2 ∷ []) 11)
unfolding ℕ_discrete
contains-all_peers_do_not_have_block_example =
    contains-all_peers_do_not_have_block reported (1 ∷ 2 ∷ []) (10 ∷ 11 ∷ []) 11

have_persists_example :
    (peer_has_block (receive_from reported 1 [] (10 ∷ [])) 1 10 ≡ true)
    × (peer_does_not_have_block (receive_from reported 1 [] (10 ∷ [])) 1 10 ≡ false)
unfolding program
have_persists_example = have_persists reported 1 1 10 [] (10 ∷ []) refl
