-- ===== src/PeerLedger/Tests.antt =====
-- Runs of the ledger, and its properties at concrete inputs.
use boxo.Base.{◌≡◌, refl, not, none, some, List, [], ◌∷◌, nat_key, ℕ_discrete, ℕ, arith, ◌==◌}
use boxo.Base.Int.{pos}
use boxo.Base.Map.{lookup, insert, delete}
use boxo.Base.Nested.{get2, put2, del2, restore}
use boxo.Wire.{WantType}
use boxo.Wantlist
use boxo.PeerLedger.{
  Ledger, new, collect_peer_ids, to_peers, to_entries, wants, remove_peer_from_cid, drop_want,
  cancel_want, cancel_want_with_type, peers_of, wantlist_size_for_peer, wantlist_for_peer,
  clear_cids, clear_peer_wantlist, peer_disconnected,
}
use boxo.PeerLedger.Inverse.{by_peer, by_cid, IsInverse, clear_peer_wantlist_not-IsInverse}
use boxo.PeerLedger.History.{
  want, cancel, cancel_typed, run, table_run, Holds, run-Holds, cancel_want_result, Call,
}

program : Unit {0}
unfolding new collect_peer_ids to_peers to_entries wants remove_peer_from_cid drop_want cancel_want
    cancel_want_with_type peers_of wantlist_size_for_peer wantlist_for_peer clear_cids
    clear_peer_wantlist peer_disconnected lookup insert delete get2 put2 del2 restore ℕ_discrete
program = tt

abbrev wanted : Wantlist.Entry ℕ
wanted = record { cid = 10; priority = pos 3; want_type = WantType.block }

abbrev calls : List (Call ℕ ℕ)
calls = want 1 wanted ∷ want 2 wanted ∷ cancel_typed 1 10 WantType.have ∷ cancel 2 10 ∷ []

-- peer 1 wants the block of CID 10
abbrev one : Ledger ℕ ℕ
one = wants new 1 wanted

one-IsInverse : IsInverse one
unfolding program
one-IsInverse p c = ground arith

reads :
    (collect_peer_ids one ≡ 1 ∷ [])
    × (wantlist_for_peer one 1 ≡ wanted ∷ [])
    × (peers_of one 10
        ≡ record { peer = 1; want = record { priority = pos 3; want_type = WantType.block } } ∷ [])
unfolding program
reads = (refl, refl, refl)

cleared :
    (wantlist_for_peer (clear_peer_wantlist one 1) 1 ≡ wanted ∷ [])
    × (peers_of (clear_peer_wantlist one 1) 10 ≡ [])
unfolding program
cleared = (refl, refl)

run-Holds_example : Holds {Cid = ℕ} {Peer = ℕ} (table_run (λ p c. none) calls) (run new calls)
unfolding program
run-Holds_example = run-Holds (λ p c. none) new calls (λ q d. (refl, refl))

cancel_want_result_example : (cancel_want one 1 77).1 ≡ not (wantlist_size_for_peer one 1 == 0)
unfolding program
cancel_want_result_example = cancel_want_result one 1 77 ((refl, tt), (refl, tt))

clear_peer_wantlist_not-IsInverse_example :
    (by_peer (clear_peer_wantlist one 1) 1 10
      ≡ some (record { priority = pos 3; want_type = WantType.block }))
    × (by_cid (clear_peer_wantlist one 1) 1 10 ≡ none)
    × (¬ IsInverse (clear_peer_wantlist one 1))
unfolding program
clear_peer_wantlist_not-IsInverse_example =
    clear_peer_wantlist_not-IsInverse one 1 10
      (record { priority = pos 3; want_type = WantType.block }) one-IsInverse refl
