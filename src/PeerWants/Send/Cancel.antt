-- ===== src/PeerWants/Send/Cancel.antt =====
-- What SendCancels leaves: the wants of the peers, the reverse index and the broadcast wants.
use boxo.Base.{
  true, not, ◌||◌, contains-select, ◌&&◌, none, List, [], ◌∷◌, Key, eq_of_same, if◌then◌else◌,
  is_some, contains, arith, ◌≡◌, Option-cases, inl, inr, select, append_new, contains-append_new,
}
use boxo.Base.Map.{Map, lookup, keys, lookup-insert, lookup-delete_all, contains-keys, delete_all}
use boxo.Base.Nested.{contains-empty, get2, inner, is_empty, get2_lem, get2_absent}
use boxo.Base.Sets.{SetOps}
use boxo.PeerWants.{Manager}
use boxo.PeerWants.Send.{
  cancel_from, send_cancel, send_cancels_to, cancel_peers, send_cancels, remove_all, cancel_gauges,
}
use boxo.PeerWants.Send.Index.{sent, IsIndexed}
use boxo.PeerWants.Send.Told.{
  was_sent-cancel_from, cancels, cancels-append, cancels-cancel_gauges, cancels-send_cancels_to,
}

module _ {Cid Set : Type 0} ⦃ck : Key Cid⦄ ⦃sets : SetOps Cid Set⦄ where
  has-remove_all :
      (s : Set) (cs : List Cid) (d : Cid)
      → sets.has (remove_all s cs) d ≡ (sets.has s d && not (contains d cs))
  unfolding remove_all
  has-remove_all s [] d = ground arith
  has-remove_all s (c ∷ cs) d =
      ground (arith, has-remove_all (sets.remove s c) cs d, sets.has-remove s c d)

module _ {Cid Peer Set : Type 0} ⦃ck : Key Cid⦄ ⦃pk : Key Peer⦄ ⦃sets : SetOps Cid Set⦄ where
  cancel_peers_keeps :
      (pwm : Manager Cid Peer Set) (ks : List Cid) (found : List Peer) (q : Peer)
      → contains q found ≡ true
      → contains q (cancel_peers pwm ks found) ≡ true
  unfolding cancel_peers
  cancel_peers_keeps pwm [] found q h = h
  cancel_peers_keeps pwm (c ∷ cs) found q h =
      cancel_peers_keeps pwm cs (append_new (keys (inner c pwm.want_peers)) found) q
        (ground (arith, h, contains-append_new (keys (inner c pwm.want_peers)) found q))

  contains-cancel_peers :
      (pwm : Manager Cid Peer Set) (ks : List Cid) (found : List Peer) (q : Peer) (d : Cid)
      → contains d ks ≡ true
      → is_some (get2 d q pwm.want_peers) ≡ true
      → contains q (cancel_peers pwm ks found) ≡ true
  unfolding cancel_peers
  contains-cancel_peers pwm [] found q d h g = cc
  contains-cancel_peers pwm (c ∷ cs) found q d h g =
      let found' = append_new (keys (inner c pwm.want_peers)) found in
      ground (
        arith,
        g,
        contains-cancel_peers pwm cs found' q d,
        cancel_peers_keeps pwm cs found' q,
        contains-append_new (keys (inner c pwm.want_peers)) found q,
        contains-keys q (inner c pwm.want_peers),
        get2_lem c q pwm.want_peers,
        eq_of_same c d,
      )

module _ {Cid Peer : Type 0} ⦃ck : Key Cid⦄ ⦃pk : Key Peer⦄ where
  get2-delete_all :
      (m : Map Cid (Map Peer (Unit {0}))) (ks : List Cid) (q : Peer) (d : Cid)
      → get2 d q (delete_all m ks) ≡ (if contains d ks then none else get2 d q m)
  get2-delete_all m ks q d = ground (
    arith,
    lookup-delete_all m ks d,
    get2_lem d q m,
    get2_lem d q (delete_all m ks),
    get2_absent d q (delete_all m ks),
  )

module _ {Cid Peer Set : Type 0} (Addr : Type 0) ⦃ck : Key Cid⦄ ⦃pk : Key Peer⦄
    ⦃sets : SetOps Cid Set⦄ where
  send_cancels_to_lem :
      (ks bcst : List Cid) (ps : List Peer) (pwm : Manager Cid Peer Set) (q : Peer) (d : Cid)
      → (sent (send_cancels_to {Addr = Addr} ks bcst pwm ps).0 q d
          ≡ (sent pwm q d && not (contains q ps && contains d ks)))
        × ((send_cancels_to {Addr = Addr} ks bcst pwm ps).0.want_peers ≡ pwm.want_peers)
  unfolding send_cancels_to send_cancel
  send_cancels_to_lem ks bcst [] pwm q d = ground arith
  send_cancels_to_lem ks bcst (p ∷ ps) pwm q d = elim (Option-cases (lookup p pwm.peer_wants)) [
    | inl e ↦ ground (arith, e, send_cancels_to_lem ks bcst ps pwm q d, eq_of_same p q)
    | inr (pws, e) ↦ ground (
      arith,
      e,
      send_cancels_to_lem ks bcst ps (send_cancel {Addr = Addr} ks bcst pwm p pws).0 q d,
      lookup-insert p q (cancel_from pwm.broadcast_wants pws ks).0 pwm.peer_wants,
      was_sent-cancel_from pwm.broadcast_wants ks pws d,
      eq_of_same p q,
    )
  ]

  -- If the reverse index is right, SendCancels clears the cancelled CIDs from the wants of every
  -- peer, from the index and from the broadcast wants, whether it goes through all peers or only
  -- through those of the index, and it changes nothing for other CIDs. It sends a peer a cancel of a
  -- CID exactly if the CID is one of the cancelled, the peer is known, and the CID was a broadcast
  -- want or was sent to that peer.
  pub send_cancels_lem :
      (pwm : Manager Cid Peer Set) (ks : List Cid) (q : Peer) (d : Cid)
      → IsIndexed pwm
      → (sent (send_cancels {Addr = Addr} pwm ks).0 q d ≡ (sent pwm q d && not (contains d ks)))
        × (is_some (get2 d q (send_cancels {Addr = Addr} pwm ks).0.want_peers)
            ≡ (sent pwm q d && not (contains d ks)))
        × (sets.has (send_cancels {Addr = Addr} pwm ks).0.broadcast_wants d
            ≡ (sets.has pwm.broadcast_wants d && not (contains d ks)))
        × (cancels q d (send_cancels {Addr = Addr} pwm ks).1 ≡ (
            contains d ks
            && (is_some (lookup q pwm.peer_wants)
                && (sets.has pwm.broadcast_wants d || sent pwm q d))))
  unfolding send_cancels cancels
  send_cancels_lem pwm [] q d i = ground (arith, i q d)
  send_cancels_lem pwm (k ∷ rest) q d i =
      let ks = k ∷ rest in
      let bcst = select (sets.has pwm.broadcast_wants) ks in
      let ps = if is_empty bcst then cancel_peers pwm ks [] else keys pwm.peer_wants in
      let known = contains-keys q pwm.peer_wants in
      let indexed = contains-cancel_peers pwm ks [] q d in
      let s = contains-select (sets.has pwm.broadcast_wants) d ks in
      (
        ground (arith, i q d, send_cancels_to_lem ks bcst ps pwm q d, indexed, known),
        ground (
          arith,
          i q d,
          send_cancels_to_lem ks bcst ps pwm q d,
          get2-delete_all pwm.want_peers ks q d,
        ),
        ground (arith, has-remove_all pwm.broadcast_wants bcst d, s),
        ground (
          arith,
          known,
          indexed,
          s,
          i q d,
          contains-empty bcst d,
          cancels-append q d (send_cancels_to {Addr = Addr} ks bcst pwm ps).1
              (cancel_gauges {Addr = Addr} pwm ks),
          cancels-cancel_gauges Addr pwm ks q d,
          cancels-send_cancels_to Addr ks bcst ps pwm q d,
        ),
      )
