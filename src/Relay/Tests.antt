-- ===== src/Relay/Tests.antt =====
-- Runs of the relay manager, and its properties at concrete inputs.
use boxo.Base.{
  ◌≡◌, refl, true, false, none, some, List, [], ◌∷◌, nat_key, ℕ_discrete, ℕ, arith, contains,
}
use boxo.Base.Map.{Map, lookup, insert}
use boxo.Base.Nested.{get2, put2, ensure}
use boxo.Relay.{
  protect, forward_haves, unprotect, forward_wants, proxy_session, Answers, RelayManager, new,
  prepare, start_proxy_phase, already_sent_to, note_route, relay_again, relay_further, choose_phase,
  process_forward, process_forwards, relay_haves, proxy_discovery, return_haves,
  process_forward_haves, forward_search,
}
use boxo.Relay.Routes.{relayed_to, IsTraceable, Excludes}
use boxo.Relay.History.{
  Call, forwards, search_for, discovers, run, AllKeep, run-IsTraceable, forward_have_returns,
}

program : Unit {0}
unfolding new prepare start_proxy_phase already_sent_to note_route relay_again relay_further
    choose_phase process_forward process_forwards relay_haves proxy_discovery return_haves
    process_forward_haves forward_search lookup insert get2 put2 ensure ℕ_discrete
program = tt

-- the peer 3, unless it is excluded
abbrev only_three : Answers ℕ
only_three = record {
  transits = false;
  forwarded = λ xs. elim (contains 3 xs) [ true ↦ none | false ↦ some 3 ];
  resend_fails = λ p. false;
}

only_three-Excludes : Excludes only_three
only_three-Excludes xs p e = ground arith

-- peer 1 asked peer 0 for CID 10, which relayed it to peer 3
abbrev relayed : RelayManager ℕ ℕ
relayed = (process_forwards {Addr = ℕ} (new 0) 1 ((10, only_three) ∷ [])).0

abbrev haves : Map ℕ (List ℕ)
haves = (10, 77 ∷ []) ∷ []

relayed_test :
    (relayed_to relayed 10 1 ≡ some 3)
    × (process_forward_haves relayed 3 haves ≡ forward_haves 1 10 (77 ∷ []) ∷ unprotect 1 10 ∷ [])
unfolding program
relayed_test = (refl, refl)

-- a second source finds no other peer, and is proxied
proxied_test :
    (process_forwards {Addr = ℕ} relayed 2 ((10, only_three) ∷ [])).1
    ≡ protect 2 10 ∷ forward_wants 10 (2 ∷ 3 ∷ []) ∷ proxy_session 2 10 ∷ []
unfolding program
proxied_test = refl

new-IsTraceable : IsTraceable (new {Cid = ℕ} {Peer = ℕ} 0)
unfolding program
new-IsTraceable = record { back = λ c s to h. cc }

abbrev calls : List (Call ℕ ℕ ℕ)
calls =
    forwards 2 ((10, only_three) ∷ [])
    ∷ discovers 2 10 (some 77) (some 10) true
    ∷ search_for 11 only_three
    ∷ []

calls_keep : AllKeep calls
calls_keep = ((only_three-Excludes, tt), (tt, (only_three-Excludes, tt)))

run-IsTraceable_example : IsTraceable (run (new 0) calls)
run-IsTraceable_example = run-IsTraceable (new 0) calls calls_keep new-IsTraceable

relayed-IsTraceable : IsTraceable relayed
unfolding program
relayed-IsTraceable = record { back = λ c s to h. ground arith }

forward_have_returns_example :
    process_forward_haves (run relayed calls) 3 haves
    ≡ forward_haves 1 10 (77 ∷ []) ∷ unprotect 1 10 ∷ []
unfolding program
forward_have_returns_example =
    forward_have_returns relayed calls 10 1 3 (77 ∷ []) calls_keep relayed-IsTraceable (omega arith)
      refl
