-- ===== src/SessionSender/Exhaustion.antt =====
-- The wants that no peer of the session has, in
-- bitswap/client/internal/session/sessionwantsender.go.
use boxo.Base.{Bool, true, false, not, ◌&&◌, none, some, List, [], ◌∷◌, ◌++◌, Key, if◌then◌else◌}
use boxo.Base.Map.{Map, keys, lookup, modify}
use boxo.Base.Nested.{is_empty}
use boxo.BlockPresence.{all_peers_do_not_have_block}
use boxo.SessionPeers.{has_peers}
use boxo.SessionSender.{WantInfo, Sender, Effect, peers_exhausted, World}

module _ {Peer : Type 0} where
  unfoldable pub set_exhausted : WantInfo Peer → WantInfo Peer
  set_exhausted wi = record wi { exhausted = true }

module _ {Cid Peer : Type 0} where
  -- `make([]cid.Cid, len(sws.wants))`, which the wants are then appended to
  unfoldable pub zero_cids : Cid → Map Cid (WantInfo Peer) → List Cid
  zero_cids undef [] = []
  zero_cids undef (_ ∷ m) = undef ∷ zero_cids undef m

module _ {Cid Peer : Type 0} ⦃ck : Key Cid⦄ where
  -- a want that is not flagged as exhausted
  unfoldable pub is_unflagged : Cid → Sender Cid Peer → Bool
  is_unflagged c s = elim (lookup c s.wants) [ none ↦ false | some wi ↦ not wi.exhausted ]

  unfoldable pub newly_exhausted : List Cid → Sender Cid Peer → Sender Cid Peer × List Cid
  unfolding is_unflagged set_exhausted
  newly_exhausted [] s = (s, [])
  newly_exhausted (c ∷ ks) s =
      let fresh = is_unflagged c s in
      let (s', res) =
        newly_exhausted ks
          (if fresh then record s { wants = modify c set_exhausted s.wants } else s) in
      (s', if fresh then c ∷ res else res)

  unfoldable pub process_exhausted_wants :
      List Cid → Sender Cid Peer → Sender Cid Peer × List (Effect Cid Peer)
  unfolding newly_exhausted
  process_exhausted_wants exhausted s =
      let (s', res) = newly_exhausted exhausted s in
      (s', if is_empty res then [] else peers_exhausted res ∷ [])

module _ {Cid Peer F : Type 0} ⦃ck : Key Cid⦄ ⦃pk : Key Peer⦄ where
  -- the last lines of `checkForExhaustedWants`
  unfoldable pub check_wants :
      World Cid Peer F → List Cid → Sender Cid Peer → Sender Cid Peer × List (Effect Cid Peer)
  unfolding process_exhausted_wants all_peers_do_not_have_block
  check_wants w ks s =
      if is_empty ks
      then (s, [])
      else process_exhausted_wants (all_peers_do_not_have_block w.bpm s.peers.peers ks) s

  -- `undef` is the zero value of cid.Cid.
  unfoldable pub check_for_exhausted_wants :
      Cid
      → World Cid Peer F
      → List Cid
      → List Peer
      → Sender Cid Peer
      → Sender Cid Peer × List (Effect Cid Peer)
  unfolding zero_cids check_wants has_peers process_exhausted_wants
  check_for_exhausted_wants undef w dont_haves newly_unavailable s =
      let all = zero_cids undef s.wants ++ keys s.wants in
      if is_empty dont_haves && is_empty newly_unavailable
      then (s, [])
      else if is_empty newly_unavailable
      then check_wants w dont_haves s
      else if has_peers s.peers
      then check_wants w all s
      else process_exhausted_wants all s
