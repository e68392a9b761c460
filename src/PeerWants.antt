-- ===== src/PeerWants.antt =====
-- bitswap/client/internal/peermanager/peerwantmanager.go: the wants sent to each peer. The queues
-- of the peers and the gauges are other components: what a method makes them do is a list of
-- effects, in order. The forward graph manager is told of peers, and answers with a successor.
pub mod Send
use boxo.Base.{
  ℕ, ◌+◌, Bool, true, false, not, ◌&&◌, ◌||◌, Option, none, some, List, [], ◌∷◌, ◌++◌, Key, same,
  if◌then◌else◌, is_some, length, contains, append_new, or_default, select, ltb, ◌==◌,
}
use boxo.Base.Map.{Map, lookup, insert, delete, has_key, keys}
use boxo.Base.Nested.{inner, put2, del2, is_empty}
use boxo.Base.Sets.{SetOps}

-- What the queues, the gauges and the forward graph manager are told to do.
pub data Effect (Cid Peer Addr : Type 0) : Type 0 where
  add_broadcast_want_haves : Peer → List Cid → Effect Cid Peer Addr
  add_wants : Peer → List Cid → List Cid → Effect Cid Peer Addr
  add_cancels : Peer → List Cid → Effect Cid Peer Addr
  add_forward_wants : Peer → List Cid → Effect Cid Peer Addr
  add_forward_haves : Peer → Cid → List Addr → Effect Cid Peer Addr
  inc_wants dec_wants inc_blocks dec_blocks : Effect Cid Peer Addr
  graph_add graph_remove : Peer → Effect Cid Peer Addr

-- `peerWant`: the queue is that of the peer.
pub record PeerWant (Set : Type 0) : Type 0 where
  pub want_blocks : Set
  pub want_haves : Set

pub record Manager (Cid Peer Set : Type 0) : Type 0 where
  pub peer_wants : Map Peer (PeerWant Set)
  pub want_peers : Map Cid (Map Peer (Unit {0}))
  pub broadcast_wants : Set

-- `wantPeerCnts`
pub record Counts : Type 0 where
  pub want_block : ℕ
  pub want_have : ℕ
  pub is_broadcast : Bool

pub wanted : Counts → Bool
wanted n = ltb 0 n.want_block || (ltb 0 n.want_have || n.is_broadcast)

module _ {Cid Set : Type 0} ⦃ck : Key Cid⦄ ⦃sets : SetOps Cid Set⦄ where
  -- whether a want of either kind was sent to the peer
  abbrev pub was_sent : PeerWant Set → Cid → Bool
  was_sent w c = sets.has w.want_blocks c || sets.has w.want_haves c

module _ {Cid Peer Set : Type 0} ⦃ck : Key Cid⦄ ⦃pk : Key Peer⦄ ⦃sets : SetOps Cid Set⦄ where
  -- `newPeerWantManager`
  pub new : Manager Cid Peer Set
  new = record { peer_wants = []; want_peers = []; broadcast_wants = sets.empty }

  -- the loop of `wantPeerCounts`
  pub count_from : Map Peer (PeerWant Set) → Cid → List Peer → ℕ × ℕ
  count_from m c [] = (0, 0)
  count_from m c (p ∷ ps) =
      let (blocks, haves) = count_from m c ps in
      elim (lookup p m) [
        | none ↦ (blocks, haves)
        | some w ↦
            if sets.has w.want_blocks c
            then (blocks + 1, haves)
            else if sets.has w.want_haves c
            then (blocks, haves + 1)
            else (blocks, haves)
      ]

  pub want_peer_counts : Manager Cid Peer Set → Cid → Counts
  unfolding count_from
  want_peer_counts pwm c =
      let (blocks, haves) = count_from pwm.peer_wants c (keys (inner c pwm.want_peers)) in
      record {
        want_block = blocks;
        want_have = haves;
        is_broadcast = sets.has pwm.broadcast_wants c;
      }

  pub reverse_index_add : Manager Cid Peer Set → Cid → Peer → Manager Cid Peer Set × Bool
  reverse_index_add pwm c p =
      (record pwm { want_peers = put2 c p tt pwm.want_peers }, not (has_key c pwm.want_peers))

  pub reverse_index_remove : Manager Cid Peer Set → Cid → Peer → Manager Cid Peer Set
  reverse_index_remove pwm c p = record pwm { want_peers = del2 c p pwm.want_peers }

module _ {Cid Peer Set Addr : Type 0} ⦃ck : Key Cid⦄ ⦃pk : Key Peer⦄ ⦃sets : SetOps Cid Set⦄ where
  -- `addPeer`
  pub add_peer : Manager Cid Peer Set → Peer → Manager Cid Peer Set × List (Effect Cid Peer Addr)
  add_peer pwm p =
      let w : PeerWant Set = record { want_blocks = sets.empty; want_haves = sets.empty } in
      let wants = sets.keys pwm.broadcast_wants in
      if has_key p pwm.peer_wants then (pwm, []) else (
        record pwm { peer_wants = insert p w pwm.peer_wants },
        graph_add p ∷ (if is_empty wants then [] else add_broadcast_want_haves p wants ∷ []),
      )

  -- the loops of `removePeer` over the want-blocks and the want-haves
  pub clean_blocks :
      Manager Cid Peer Set → Peer → List Cid → Manager Cid Peer Set × List (Effect Cid Peer Addr)
  unfolding reverse_index_remove want_peer_counts wanted
  clean_blocks pwm p [] = (pwm, [])
  clean_blocks pwm p (c ∷ cs) =
      let pwm' = reverse_index_remove pwm c p in
      let counts = want_peer_counts pwm' c in
      let (pwm'', effects) = clean_blocks pwm' p cs in
      (
        pwm'',
        (if counts.want_block == 0 then dec_blocks ∷ [] else [])
            ++ (if wanted counts then [] else dec_wants ∷ [])
            ++ effects,
      )

  pub clean_haves :
      Manager Cid Peer Set → Peer → List Cid → Manager Cid Peer Set × List (Effect Cid Peer Addr)
  unfolding reverse_index_remove want_peer_counts wanted
  clean_haves pwm p [] = (pwm, [])
  clean_haves pwm p (c ∷ cs) =
      let pwm' = reverse_index_remove pwm c p in
      let counts = want_peer_counts pwm' c in
      let (pwm'', effects) = clean_haves pwm' p cs in
      (pwm'', (if wanted counts then [] else dec_wants ∷ []) ++ effects)

  -- `removePeer`
  pub remove_peer : Manager Cid Peer Set → Peer → Manager Cid Peer Set × List (Effect Cid Peer Addr)
  unfolding clean_blocks clean_haves
  remove_peer pwm p = elim (lookup p pwm.peer_wants) [
    | none ↦ (pwm, graph_remove p ∷ [])
    | some w ↦
        let (pwm1, effects1) = clean_blocks pwm p (sets.keys w.want_blocks) in
        let (pwm2, effects2) = clean_haves pwm1 p (sets.keys w.want_haves) in
        (
          record pwm2 { peer_wants = delete p pwm2.peer_wants },
          graph_remove p ∷ effects1 ++ effects2,
        )
  ]

  -- `forwardWants`: the peer to send to, `none` for the empty ID, and the successor that the graph
  -- gives if it is asked; `none` for an error.
  pub forward_wants :
      Manager Cid Peer Set
      → Cid
      → Option Peer
      → Option Peer
      → List (Effect Cid Peer Addr) × Option Peer
  forward_wants pwm c to successor = elim (if is_some to then to else successor) [
    | none ↦ ([], none)
    | some p ↦
        if has_key p pwm.peer_wants then (add_forward_wants p (c ∷ []) ∷ [], some p) else ([], none)
  ]

  pub forward_haves : Manager Cid Peer Set → Peer → Cid → List Addr → List (Effect Cid Peer Addr)
  forward_haves pwm to c peers =
      if has_key to pwm.peer_wants then add_forward_haves to c peers ∷ [] else []
