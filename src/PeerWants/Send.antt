-- ===== src/PeerWants/Send.antt =====
-- bitswap/client/internal/peermanager/peerwantmanager.go, the methods that send wants and cancels.
pub mod Index
pub mod Told
pub mod Cancel
pub mod Sending
pub mod Broadcast
pub mod History
mod Tests
use boxo.Base.{
  ◌+◌, Bool, true, false, not, ◌&&◌, ◌||◌, Option, none, some, List, [], ◌∷◌, ◌++◌, Key, same,
  if◌then◌else◌, is_some, length, contains, append_new, or_default, select, ltb, ◌==◌,
}
use boxo.Base.Map.{Map, lookup, insert, delete_all, has_key, keys}
use boxo.Base.Nested.{inner, is_empty}
use boxo.Base.Sets.{SetOps}
use boxo.PeerWants.{
  Effect, PeerWant, Manager, Counts, was_sent, wanted, want_peer_counts, reverse_index_add,
  add_broadcast_want_haves, add_wants, add_cancels, inc_wants, dec_wants, inc_blocks, dec_blocks,
}

module _ {Cid Set : Type 0} ⦃ck : Key Cid⦄ ⦃sets : SetOps Cid Set⦄ where
  -- the CID as a want-block, and no longer as a want-have
  pub as_block : PeerWant Set → Cid → PeerWant Set
  as_block pws c = record {
    want_blocks = sets.add pws.want_blocks c;
    want_haves = sets.remove pws.want_haves c;
  }

  pub as_have : PeerWant Set → Cid → PeerWant Set
  as_have pws c = record pws { want_haves = sets.add pws.want_haves c }

  -- the keys that `send` cancels for one peer beside the broadcasts, and the entry left
  pub cancel_from : Set → PeerWant Set → List Cid → PeerWant Set × List Cid
  cancel_from bcst pws [] = (pws, [])
  cancel_from bcst pws (c ∷ cs) =
      let skip = cancel_from bcst pws cs in
      let (pws', to_cancel) =
        cancel_from bcst
          (record {
            want_blocks = sets.remove pws.want_blocks c;
            want_haves = sets.remove pws.want_haves c;
          })
          cs in
      if was_sent pws c then (pws', if sets.has bcst c then to_cancel else c ∷ to_cancel) else skip

  pub remove_all : Set → List Cid → Set
  remove_all s [] = s
  remove_all s (c ∷ cs) = remove_all (sets.remove s c) cs

  -- the CIDs of one set added to another
  pub add_keys : Set → List Cid → Set
  add_keys s [] = s
  add_keys s (c ∷ cs) = add_keys (sets.add s c) cs

module _ {Cid Peer Set : Type 0} ⦃ck : Key Cid⦄ ⦃pk : Key Peer⦄ ⦃sets : SetOps Cid Set⦄ where
  -- the peers that a want for one of the keys was sent to, by the reverse index
  pub cancel_peers : Manager Cid Peer Set → List Cid → List Peer → List Peer
  cancel_peers pwm [] found = found
  cancel_peers pwm (c ∷ cs) found =
      cancel_peers pwm cs (append_new (keys (inner c pwm.want_peers)) found)

  -- the changed entry of a peer, which the code shares with the map, and the index
  pub store : Manager Cid Peer Set → Peer → PeerWant Set → Cid → Manager Cid Peer Set
  unfolding reverse_index_add
  store pwm p pws c =
      (reverse_index_add (record pwm { peer_wants = insert p pws pwm.peer_wants }) c p).0

module _ {Cid Peer Set Addr : Type 0} ⦃ck : Key Cid⦄ ⦃pk : Key Peer⦄ ⦃sets : SetOps Cid Set⦄ where
  -- the first loop of `broadcastWantHaves`: the new wants and the gauge
  pub broadcast_new :
      Manager Cid Peer Set
      → List Cid
      → Manager Cid Peer Set × List Cid × List (Effect Cid Peer Addr)
  broadcast_new pwm [] = (pwm, [], [])
  broadcast_new pwm (c ∷ cs) =
      let skip = broadcast_new pwm cs in
      let (pwm', unsent, effects) =
        broadcast_new (record pwm { broadcast_wants = sets.add pwm.broadcast_wants c }) cs in
      if sets.has pwm.broadcast_wants c
      then skip
      else (pwm', c ∷ unsent, (if has_key c pwm.want_peers then [] else inc_wants ∷ []) ++ effects)

  -- the last loop, over the peers
  pub broadcast_to : Map Peer (PeerWant Set) → List Cid → List (Effect Cid Peer Addr)
  broadcast_to [] unsent = []
  broadcast_to ((p, w) ∷ m) unsent =
      let rest = broadcast_to m unsent in
      let peer_unsent = select (λ c. not (was_sent w c)) unsent in
      if is_empty peer_unsent then rest else add_broadcast_want_haves p peer_unsent ∷ rest

  pub broadcast_want_haves :
      Manager Cid Peer Set → List Cid → Manager Cid Peer Set × List (Effect Cid Peer Addr)
  unfolding broadcast_new broadcast_to
  broadcast_want_haves pwm cs =
      let (pwm', unsent, effects) = broadcast_new pwm cs in
      (pwm', effects ++ (if is_empty unsent then [] else broadcast_to pwm.peer_wants unsent))

  -- the loop of `sendWants` over the want-blocks; `pws` is the entry of the peer in the map
  pub send_blocks :
      Manager Cid Peer Set
      → Peer
      → PeerWant Set
      → List Cid
      → Manager Cid Peer Set × List Cid × List (Effect Cid Peer Addr)
  unfolding want_peer_counts wanted as_block store
  send_blocks pwm p pws [] = (pwm, [], [])
  send_blocks pwm p pws (c ∷ cs) =
      let skip = send_blocks pwm p pws cs in
      let counts = want_peer_counts pwm c in
      let pws' = as_block pws c in
      let (pwm', sent, effects) = send_blocks (store pwm p pws' c) p pws' cs in
      if sets.has pws.want_blocks c then skip else (
        pwm',
        c ∷ sent,
        (if counts.want_block == 0 then inc_blocks ∷ [] else [])
            ++ (if wanted counts then [] else inc_wants ∷ [])
            ++ effects,
      )

  -- the loop over the want-haves
  pub send_haves :
      Manager Cid Peer Set
      → Peer
      → PeerWant Set
      → List Cid
      → Manager Cid Peer Set × List Cid × List (Effect Cid Peer Addr)
  unfolding want_peer_counts wanted as_have store
  send_haves pwm p pws [] = (pwm, [], [])
  send_haves pwm p pws (c ∷ cs) =
      let skip = send_haves pwm p pws cs in
      let pws' = as_have pws c in
      let (pwm', sent, effects) = send_haves (store pwm p pws' c) p pws' cs in
      if sets.has pwm.broadcast_wants c || was_sent pws c then skip else (
        pwm',
        c ∷ sent,
        (if wanted (want_peer_counts pwm c) then [] else inc_wants ∷ []) ++ effects,
      )

  pub send_wants :
      Manager Cid Peer Set
      → Peer
      → List Cid
      → List Cid
      → Manager Cid Peer Set × List (Effect Cid Peer Addr)
  unfolding send_blocks send_haves
  send_wants pwm p blocks haves = elim (lookup p pwm.peer_wants) [
    | none ↦ (pwm, [])
    | some pws ↦
        let (pwm1, sent1, effects1) = send_blocks pwm p pws blocks in
        let (pwm2, sent2, effects2) =
          send_haves pwm1 p (or_default pws (lookup p pwm1.peer_wants)) haves in
        (pwm2, effects1 ++ effects2 ++ add_wants p sent1 sent2 ∷ [])
  ]

  -- the closure `send` of `sendCancels`
  pub send_cancel :
      List Cid
      → List Cid
      → Manager Cid Peer Set
      → Peer
      → PeerWant Set
      → Manager Cid Peer Set × List (Effect Cid Peer Addr)
  unfolding cancel_from
  send_cancel ks bcst_cancels pwm p pws =
      let (pws', more) = cancel_from pwm.broadcast_wants pws ks in
      let to_cancel = bcst_cancels ++ more in
      (
        record pwm { peer_wants = insert p pws' pwm.peer_wants },
        if is_empty to_cancel then [] else add_cancels p to_cancel ∷ [],
      )

  pub send_cancels_to :
      List Cid
      → List Cid
      → Manager Cid Peer Set
      → List Peer
      → Manager Cid Peer Set × List (Effect Cid Peer Addr)
  unfolding send_cancel
  send_cancels_to ks bcst_cancels pwm [] = (pwm, [])
  send_cancels_to ks bcst_cancels pwm (p ∷ ps) = elim (lookup p pwm.peer_wants) [
    | none ↦ send_cancels_to ks bcst_cancels pwm ps
    | some pws ↦
        let (pwm1, effects1) = send_cancel ks bcst_cancels pwm p pws in
        let (pwm2, effects2) = send_cancels_to ks bcst_cancels pwm1 ps in
        (pwm2, effects1 ++ effects2)
  ]

  -- the gauges, from the counts before the cancels
  pub cancel_gauges : Manager Cid Peer Set → List Cid → List (Effect Cid Peer Addr)
  unfolding want_peer_counts wanted
  cancel_gauges pwm [] = []
  cancel_gauges pwm (c ∷ cs) =
      let counts = want_peer_counts pwm c in
      (if ltb 0 counts.want_block then dec_blocks ∷ [] else [])
      ++ (if wanted counts then dec_wants ∷ [] else [])
      ++ cancel_gauges pwm cs

  pub send_cancels :
      Manager Cid Peer Set → List Cid → Manager Cid Peer Set × List (Effect Cid Peer Addr)
  unfolding send_cancels_to cancel_gauges cancel_peers remove_all
  send_cancels pwm [] = (pwm, [])
  send_cancels pwm (k ∷ rest) =
      let ks = k ∷ rest in
      let bcst_cancels = select (sets.has pwm.broadcast_wants) ks in
      let ps = if is_empty bcst_cancels then cancel_peers pwm ks [] else keys pwm.peer_wants in
      let (pwm', effects) = send_cancels_to ks bcst_cancels pwm ps in
      (
        record pwm' {
          broadcast_wants = remove_all pwm.broadcast_wants bcst_cancels;
          want_peers = delete_all pwm.want_peers ks;
        },
        effects ++ cancel_gauges pwm ks,
      )

module _ {Cid Peer Set : Type 0} ⦃ck : Key Cid⦄ ⦃sets : SetOps Cid Set⦄ where
  -- the want-blocks of all peers, one after the other
  pub all_blocks : Map Peer (PeerWant Set) → List Cid
  all_blocks [] = []
  all_blocks ((p, w) ∷ m) = sets.keys w.want_blocks ++ all_blocks m

  pub all_haves : Map Peer (PeerWant Set) → List Cid
  all_haves [] = []
  all_haves ((p, w) ∷ m) = sets.keys w.want_haves ++ all_haves m

  pub get_want_blocks : Manager Cid Peer Set → List Cid
  unfolding all_blocks add_keys
  get_want_blocks pwm = sets.keys (add_keys sets.empty (all_blocks pwm.peer_wants))

  pub get_want_haves : Manager Cid Peer Set → List Cid
  unfolding all_haves add_keys
  get_want_haves pwm =
      sets.keys
        (add_keys (add_keys sets.empty (all_haves pwm.peer_wants)) (sets.keys pwm.broadcast_wants))

  pub get_wants : Manager Cid Peer Set → List Cid
  get_wants pwm =
      sets.keys pwm.broadcast_wants
      ++ select (λ c. not (sets.has pwm.broadcast_wants c)) (keys pwm.want_peers)
