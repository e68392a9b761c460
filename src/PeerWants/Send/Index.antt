-- ===== src/PeerWants/Send/Index.antt =====
-- The reverse index against the wants of the peers.
use boxo.Base.{
  Bool, true, false, not, ◌&&◌, ◌||◌, none, some, List, [], ◌∷◌, Key, same, eq_of_same,
  if◌then◌else◌, is_some, or_default, contains, arith, ◌≡◌, Option-cases, Bool-cases, inl, inr,
}
use boxo.Base.Map.{lookup, lookup-insert, lookup-delete, lookup-insert_self}
use boxo.Base.Nested.{get2, get2-put2, get2-del2}
use boxo.Base.Sets.{SetOps}
use boxo.PeerWants.{
  PeerWant, Manager, was_sent, reverse_index_add, reverse_index_remove, add_peer, remove_peer,
  clean_blocks, clean_haves,
}
use boxo.PeerWants.Send.{store, as_block, as_have, send_blocks, send_haves, send_wants}

module _ {Cid Set : Type 0} ⦃ck : Key Cid⦄ ⦃sets : SetOps Cid Set⦄ where
  pub was_sent-as_block :
      (pws : PeerWant Set) (c d : Cid) → was_sent (as_block pws c) d ≡ (same c d || was_sent pws d)
  unfolding as_block
  was_sent-as_block pws c d =
      ground (arith, sets.has-add pws.want_blocks c d, sets.has-remove pws.want_haves c d)

  pub was_sent-as_have :
      (pws : PeerWant Set) (c d : Cid) → was_sent (as_have pws c) d ≡ (same c d || was_sent pws d)
  unfolding as_have
  was_sent-as_have pws c d = ground (arith, sets.has-add pws.want_haves c d)

module _ {Cid Peer Set : Type 0} ⦃ck : Key Cid⦄ ⦃pk : Key Peer⦄ ⦃sets : SetOps Cid Set⦄ where
  -- whether a want for the CID was sent to the peer
  abbrev pub sent : Manager Cid Peer Set → Peer → Cid → Bool
  sent pwm p c = elim (lookup p pwm.peer_wants) [ none ↦ false | some w ↦ was_sent w c ]

  -- The reverse index lists a peer under a CID exactly if a want for it was sent to the peer.
  abbrev pub IsIndexed : Manager Cid Peer Set → Type 0
  IsIndexed pwm = (p : Peer) (c : Cid) → is_some (get2 c p pwm.want_peers) ≡ sent pwm p c

  -- One more CID in the entry of a peer and in the index.
  store-IsIndexed :
      (pwm : Manager Cid Peer Set) (p : Peer) (pws pws' : PeerWant Set) (c : Cid)
      → lookup p pwm.peer_wants ≡ some pws
      → ((d : Cid) → was_sent pws' d ≡ (same c d || was_sent pws d))
      → IsIndexed pwm
      → IsIndexed (store pwm p pws' c)
  unfolding store reverse_index_add
  store-IsIndexed pwm p pws pws' c e h i q d = ground (
    arith,
    i q d,
    h d,
    e,
    lookup-insert p q pws' pwm.peer_wants,
    get2-put2 c d p q tt pwm.want_peers,
    eq_of_same p q,
  )

  pub lookup-store :
      (pwm : Manager Cid Peer Set) (p : Peer) (pws : PeerWant Set) (c : Cid)
      → lookup p (store pwm p pws c).peer_wants ≡ some pws
  unfolding store reverse_index_add
  lookup-store pwm p pws c = lookup-insert_self p pws pwm.peer_wants

module _ {Cid Peer Set : Type 0} (Addr : Type 0) ⦃ck : Key Cid⦄ ⦃pk : Key Peer⦄
    ⦃sets : SetOps Cid Set⦄ where
  send_blocks-IsIndexed :
      (cs : List Cid) (pwm : Manager Cid Peer Set) (p : Peer) (pws : PeerWant Set)
      → lookup p pwm.peer_wants ≡ some pws
      → IsIndexed pwm
      → IsIndexed (send_blocks {Addr = Addr} pwm p pws cs).0
        × (is_some (lookup p (send_blocks {Addr = Addr} pwm p pws cs).0.peer_wants) ≡ true)
  unfolding send_blocks
  send_blocks-IsIndexed [] pwm p pws e i = (i, ground (arith, e))
  send_blocks-IsIndexed (c ∷ cs) pwm p pws e i = elim (Bool-cases (sets.has pws.want_blocks c)) [
    | inl h ↦ rw h (send_blocks-IsIndexed cs pwm p pws e i)
    | inr h ↦ rw h (
        send_blocks-IsIndexed cs (store pwm p (as_block pws c) c) p (as_block pws c)
          (lookup-store pwm p (as_block pws c) c)
          (store-IsIndexed pwm p pws (as_block pws c) c e (was_sent-as_block pws c) i))
  ]

  send_haves-IsIndexed :
      (cs : List Cid) (pwm : Manager Cid Peer Set) (p : Peer) (pws : PeerWant Set)
      → lookup p pwm.peer_wants ≡ some pws
      → IsIndexed pwm
      → IsIndexed (send_haves {Addr = Addr} pwm p pws cs).0
  unfolding send_haves
  send_haves-IsIndexed [] pwm p pws e i = i
  send_haves-IsIndexed (c ∷ cs) pwm p pws e i =
      elim (Bool-cases (sets.has pwm.broadcast_wants c || was_sent pws c)) [
        | inl h ↦ rw h (send_haves-IsIndexed cs pwm p pws e i)
        | inr h ↦ rw h (
            send_haves-IsIndexed cs (store pwm p (as_have pws c) c) p (as_have pws c)
              (lookup-store pwm p (as_have pws c) c)
              (store-IsIndexed pwm p pws (as_have pws c) c e (was_sent-as_have pws c) i))
      ]

  pub send_wants-IsIndexed :
      (pwm : Manager Cid Peer Set) (p : Peer) (blocks haves : List Cid)
      → IsIndexed pwm
      → IsIndexed (send_wants {Addr = Addr} pwm p blocks haves).0
  unfolding send_wants
  send_wants-IsIndexed pwm p blocks haves i = elim (Option-cases (lookup p pwm.peer_wants)) [
    | inl e ↦ rw (e, send_wants) i
    | inr (pws, e) ↦
        rw (e, send_wants)
          (let (i', h) = send_blocks-IsIndexed blocks pwm p pws e i in
            send_haves-IsIndexed haves (send_blocks {Addr = Addr} pwm p pws blocks).0 p
              (or_default pws (lookup p (send_blocks {Addr = Addr} pwm p pws blocks).0.peer_wants))
              (ground (arith, h)) i')
  ]

  pub add_peer-IsIndexed :
      (pwm : Manager Cid Peer Set) (p : Peer)
      → IsIndexed pwm
      → IsIndexed (add_peer {Addr = Addr} pwm p).0
  unfolding add_peer
  add_peer-IsIndexed pwm p i q c = ground (
    arith,
    i q c,
    lookup-insert p q (record { want_blocks = sets.empty; want_haves = sets.empty }) pwm.peer_wants,
    sets.has-empty c,
    eq_of_same p q,
  )

  clean_blocks_lem :
      (cs : List Cid) (pwm : Manager Cid Peer Set) (p q : Peer) (d : Cid)
      → ((clean_blocks {Addr = Addr} pwm p cs).0.peer_wants ≡ pwm.peer_wants)
        × (get2 d q (clean_blocks {Addr = Addr} pwm p cs).0.want_peers
            ≡ (if contains d cs && same p q then none else get2 d q pwm.want_peers))
  unfolding clean_blocks reverse_index_remove
  clean_blocks_lem [] pwm p q d = ground arith
  clean_blocks_lem (c ∷ cs) pwm p q d = ground (
    arith,
    clean_blocks_lem cs (reverse_index_remove pwm c p) p q d,
    get2-del2 c d p q pwm.want_peers,
  )

  clean_haves_lem :
      (cs : List Cid) (pwm : Manager Cid Peer Set) (p q : Peer) (d : Cid)
      → ((clean_haves {Addr = Addr} pwm p cs).0.peer_wants ≡ pwm.peer_wants)
        × (get2 d q (clean_haves {Addr = Addr} pwm p cs).0.want_peers
            ≡ (if contains d cs && same p q then none else get2 d q pwm.want_peers))
  unfolding clean_haves reverse_index_remove
  clean_haves_lem [] pwm p q d = ground arith
  clean_haves_lem (c ∷ cs) pwm p q d = ground (
    arith,
    clean_haves_lem cs (reverse_index_remove pwm c p) p q d,
    get2-del2 c d p q pwm.want_peers,
  )

  -- Removing a peer takes it out of the map and of the reverse index, under every CID, and changes
  -- nothing for the others, if the index was right before.
  pub remove_peer_lem :
      (pwm : Manager Cid Peer Set) (p q : Peer) (d : Cid)
      → IsIndexed pwm
      → (sent (remove_peer {Addr = Addr} pwm p).0 q d ≡ (not (same p q) && sent pwm q d))
        × (is_some (get2 d q (remove_peer {Addr = Addr} pwm p).0.want_peers)
            ≡ (not (same p q) && sent pwm q d))
  unfolding remove_peer
  remove_peer_lem pwm p q d i = elim (Option-cases (lookup p pwm.peer_wants)) [
    | inl e ↦ ground (arith, e, i q d, i p d, eq_of_same p q)
    | inr (pws, e) ↦
        let pwm1 = (clean_blocks {Addr = Addr} pwm p (sets.keys pws.want_blocks)).0 in
        ground (
          arith,
          e,
          i q d,
          clean_blocks_lem (sets.keys pws.want_blocks) pwm p q d,
          clean_haves_lem (sets.keys pws.want_haves) pwm1 p q d,
          sets.contains-keys pws.want_blocks d,
          sets.contains-keys pws.want_haves d,
          lookup-delete p q pwm.peer_wants,
          eq_of_same p q,
        )
  ]
