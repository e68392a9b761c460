-- ===== src/SessionPeers/Tests.antt =====
-- Runs of the session peer manager, and its properties at concrete inputs.
use boxo.Base.{◌++◌, ◌≡◌, refl, true, false, ℕ, List, [], ◌∷◌, nat_key, ℕ_discrete, contains}
use boxo.Base.Sets.{insert_key, without}
use boxo.SessionPeers.{
  tag, untag, protect, unprotect, new, untag_all, shutdown, has_peers, has_peer, add_peer,
  protect_connection, remove_peer,
}
use boxo.SessionPeers.Tagging.{
  Call, adds, protects, removes, tagged, protected, step, run, run-tagged,
}

program : Unit {0}
unfolding new untag_all shutdown has_peers has_peer add_peer protect_connection remove_peer
    insert_key without ℕ_discrete tagged protected step run
program = tt

abbrev calls : List (Call ℕ)
calls = adds 1 ∷ adds 2 ∷ adds 1 ∷ protects 2 ∷ protects 3 ∷ removes 1 ∷ []

calls_test :
    (run new calls ≡ (
      record { peers = 2 ∷ []; peers_discovered = true },
      tag 1 ∷ tag 2 ∷ protect 2 ∷ untag 1 ∷ unprotect 1 ∷ [],
    ))
    × (protected 2 false (run new calls).1 ≡ true)
    × (shutdown (run new calls).0 ≡ untag 2 ∷ unprotect 2 ∷ [])
    × (has_peers (run new calls).0 ≡ true)
    × (has_peer (run new calls).0 1 ≡ false)
unfolding program
calls_test = (refl, refl, refl, refl, refl)

run-tagged_example :
    (tagged 2 (contains 2 (new {Peer = ℕ}).peers) (run new calls).1
      ≡ contains 2 (run new calls).0.peers)
    × (tagged 2
          (contains 2 (new {Peer = ℕ}).peers)
          ((run new calls).1 ++ shutdown (run new calls).0)
        ≡ false)
    × (protected 2 false ((run new calls).1 ++ shutdown (run new calls).0) ≡ false)
run-tagged_example = run-tagged new calls 2 false (λ h. cc)
