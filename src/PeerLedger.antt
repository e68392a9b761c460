-- ===== src/PeerLedger.antt =====
-- bitswap/server/internal/decision/peer_ledger.go: the wants of each peer, and the peers of each
-- want.
pub mod Inverse
pub mod History
mod Tests
use boxo.Base.{
  ℕ, Bool, true, false, ◌&&◌, Option, none, some, List, [], ◌∷◌, Key, if◌then◌else◌, or_default,
  length,
}
use boxo.Base.Int.{ℤ}
use boxo.Base.Map.{Map, lookup, insert, delete, keys}
use boxo.Base.Nested.{put2, del2, restore, inner}
use boxo.Wire.{WantType, is_block, is_have}
use boxo.Wantlist

-- `entry`
pub record Want : Type 0 where
  pub priority : ℤ
  pub want_type : WantType

pub record Ledger (Cid Peer : Type 0) : Type 0 where
  pub peers : Map Peer (Map Cid Want)
  pub cids : Map Cid (Map Peer Want)

-- `entryForPeer`
pub record PeerWant (Peer : Type 0) : Type 0 where
  pub peer : Peer
  pub want : Want

module _ {Cid Peer : Type 0} where
  pub new : Ledger Cid Peer
  new = record { peers = []; cids = [] }

  pub collect_peer_ids : Ledger Cid Peer → List Peer
  collect_peer_ids l = keys l.peers

module _ {Peer : Type 0} where
  pub to_peers : Map Peer Want → List (PeerWant Peer)
  to_peers [] = []
  to_peers ((p, e) ∷ m) = record { peer = p; want = e } ∷ to_peers m

module _ {Cid : Type 0} where
  pub to_entries : Map Cid Want → List (Wantlist.Entry Cid)
  to_entries [] = []
  to_entries ((c, e) ∷ m) =
      record { cid = c; priority = e.priority; want_type = e.want_type } ∷ to_entries m

module _ {Cid Peer : Type 0} ⦃ck : Key Cid⦄ ⦃pk : Key Peer⦄ where
  pub wants : Ledger Cid Peer → Peer → Wantlist.Entry Cid → Ledger Cid Peer
  wants l p e =
      let w : Want = record { priority = e.priority; want_type = e.want_type } in
      record { peers = put2 p e.cid w l.peers; cids = put2 e.cid p w l.cids }

  -- `removePeerFromCid`
  pub remove_peer_from_cid : Ledger Cid Peer → Peer → Cid → Ledger Cid Peer
  remove_peer_from_cid l p k = record l { cids = del2 k p l.cids }

  -- the common end of the two cancels: `delete(wants, k)` and what follows it
  pub drop_want : Ledger Cid Peer → Peer → Cid → Map Cid Want → Ledger Cid Peer
  unfolding remove_peer_from_cid
  drop_want l p k ws =
      remove_peer_from_cid (record l { peers = restore p (delete k ws) l.peers }) p k

  pub cancel_want : Ledger Cid Peer → Peer → Cid → Ledger Cid Peer × Bool
  unfolding drop_want
  cancel_want l p k = elim (lookup p l.peers) [
    | none ↦ (l, false)
    | some ws ↦ (drop_want l p k ws, true)
  ]

  pub cancel_want_with_type : Ledger Cid Peer → Peer → Cid → WantType → Ledger Cid Peer
  unfolding drop_want
  cancel_want_with_type l p k t = elim (lookup p l.peers) [
    | none ↦ l
    | some ws ↦ elim (lookup k ws) [
      | none ↦ l
      | some e ↦ if is_have t && is_block e.want_type then l else drop_want l p k ws
    ]
  ]

  -- `Peers`
  pub peers_of : Ledger Cid Peer → Cid → List (PeerWant Peer)
  unfolding to_peers
  peers_of l k = elim (lookup k l.cids) [ none ↦ [] | some m ↦ to_peers m ]

  pub wantlist_size_for_peer : Ledger Cid Peer → Peer → ℕ
  wantlist_size_for_peer l p = length (inner p l.peers)

  pub wantlist_for_peer : Ledger Cid Peer → Peer → List (Wantlist.Entry Cid)
  unfolding to_entries
  wantlist_for_peer l p = elim (lookup p l.peers) [ none ↦ [] | some m ↦ to_entries m ]

  -- the loop of `ClearPeerWantlist`
  pub clear_cids : Ledger Cid Peer → Peer → List Cid → Ledger Cid Peer
  unfolding remove_peer_from_cid
  clear_cids l p [] = l
  clear_cids l p (c ∷ cs) = clear_cids (remove_peer_from_cid l p c) p cs

  pub clear_peer_wantlist : Ledger Cid Peer → Peer → Ledger Cid Peer
  unfolding clear_cids
  clear_peer_wantlist l p = elim (lookup p l.peers) [ none ↦ l | some m ↦ clear_cids l p (keys m) ]

  pub peer_disconnected : Ledger Cid Peer → Peer → Ledger Cid Peer
  unfolding clear_peer_wantlist
  peer_disconnected l p =
      let cleared = clear_peer_wantlist l p in record cleared { peers = delete p cleared.peers }
