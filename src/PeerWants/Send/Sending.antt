-- ===== src/PeerWants/Send/Sending.antt =====
-- What the queues are told: no want is sent twice to a peer, and none is left out.
use boxo.Base.{
  Bool, true, false, not, ◌&&◌, ◌||◌, some, List, [], ◌∷◌, ◌++◌, Key, eq_of_same, is_some,
  or_default, contains, arith, ◌≡◌, refl, IsDistinct,
}
use boxo.Base.Map.{lookup}
use boxo.Base.Sets.{SetOps}
use boxo.PeerWants.{
  Effect, PeerWant, Manager, was_sent, add_wants, inc_wants, inc_blocks, reverse_index_add,
}
use boxo.PeerWants.Send.{store, as_block, as_have, send_blocks, send_haves, send_wants}
use boxo.PeerWants.Send.Index.{sent, lookup-store, was_sent-as_block, was_sent-as_have}

module _ {Cid Peer Set : Type 0} ⦃ck : Key Cid⦄ ⦃pk : Key Peer⦄ ⦃sets : SetOps Cid Set⦄ where
  broadcast-store :
      (pwm : Manager Cid Peer Set) (p : Peer) (pws : PeerWant Set) (c : Cid)
      → (store pwm p pws c).broadcast_wants ≡ pwm.broadcast_wants
  unfolding store reverse_index_add
  broadcast-store pwm p pws c = refl

module _ {Cid Peer Addr : Type 0} where
  is_gauge : Effect Cid Peer Addr → Bool
  is_gauge inc_wants = true
  is_gauge inc_blocks = true
  is_gauge _ = false

  -- The effects do nothing but count up the gauges, so that no queue is told anything.
  pub only_gauges : List (Effect Cid Peer Addr) → Bool
  unfolding is_gauge
  only_gauges [] = true
  only_gauges (e ∷ es) = is_gauge e && only_gauges es

  only_gauges-append :
      (es fs : List (Effect Cid Peer Addr))
      → only_gauges es ≡ true
      → only_gauges fs ≡ true
      → only_gauges (es ++ fs) ≡ true
  unfolding only_gauges
  only_gauges-append [] fs h k = k
  only_gauges-append (e ∷ es) fs h k = ground (arith, h, k, only_gauges-append es fs)

module _ {Cid Peer Set : Type 0} (Addr : Type 0) ⦃ck : Key Cid⦄ ⦃pk : Key Peer⦄
    ⦃sets : SetOps Cid Set⦄ where
  send_blocks_gauges :
      (cs : List Cid) (pwm : Manager Cid Peer Set) (p : Peer) (pws : PeerWant Set)
      → only_gauges (send_blocks {Addr = Addr} pwm p pws cs).2 ≡ true
  unfolding send_blocks only_gauges is_gauge
  send_blocks_gauges [] pwm p pws = refl
  send_blocks_gauges (c ∷ cs) pwm p pws = ground (
    arith,
    send_blocks_gauges cs pwm p pws,
    send_blocks_gauges cs (store pwm p (as_block pws c) c) p (as_block pws c),
  )

  send_haves_gauges :
      (cs : List Cid) (pwm : Manager Cid Peer Set) (p : Peer) (pws : PeerWant Set)
      → only_gauges (send_haves {Addr = Addr} pwm p pws cs).2 ≡ true
  unfolding send_haves only_gauges is_gauge
  send_haves_gauges [] pwm p pws = refl
  send_haves_gauges (c ∷ cs) pwm p pws = ground (
    arith,
    send_haves_gauges cs pwm p pws,
    send_haves_gauges cs (store pwm p (as_have pws c) c) p (as_have pws c),
  )

  -- The loop over the want-blocks sends each CID of the list once, if it was not sent before.
  contains-send_blocks :
      (cs : List Cid) (pwm : Manager Cid Peer Set) (p : Peer) (pws : PeerWant Set) (d : Cid)
      → contains d (send_blocks {Addr = Addr} pwm p pws cs).1
        ≡ (contains d cs && not (sets.has pws.want_blocks d))
  unfolding send_blocks as_block
  contains-send_blocks [] pwm p pws d = refl
  contains-send_blocks (c ∷ cs) pwm p pws d = ground (
    arith,
    contains-send_blocks cs pwm p pws d,
    contains-send_blocks cs (store pwm p (as_block pws c) c) p (as_block pws c) d,
    sets.has-add pws.want_blocks c d,
    eq_of_same c d,
  )

  send_blocks-IsDistinct :
      (cs : List Cid) (pwm : Manager Cid Peer Set) (p : Peer) (pws : PeerWant Set)
      → IsDistinct (send_blocks {Addr = Addr} pwm p pws cs).1
  unfolding send_blocks as_block
  send_blocks-IsDistinct [] pwm p pws = tt
  send_blocks-IsDistinct (c ∷ cs) pwm p pws = ground (
    arith,
    send_blocks-IsDistinct cs pwm p pws,
    send_blocks-IsDistinct cs (store pwm p (as_block pws c) c) p (as_block pws c),
    contains-send_blocks cs (store pwm p (as_block pws c) c) p (as_block pws c) c,
    sets.has-add pws.want_blocks c c,
  )

  contains-send_haves :
      (cs : List Cid) (pwm : Manager Cid Peer Set) (p : Peer) (pws : PeerWant Set) (d : Cid)
      → contains d (send_haves {Addr = Addr} pwm p pws cs).1
        ≡ (contains d cs && not (sets.has pwm.broadcast_wants d || was_sent pws d))
  unfolding send_haves as_have store reverse_index_add
  contains-send_haves [] pwm p pws d = refl
  contains-send_haves (c ∷ cs) pwm p pws d = ground (
    arith,
    contains-send_haves cs pwm p pws d,
    contains-send_haves cs (store pwm p (as_have pws c) c) p (as_have pws c) d,
    sets.has-add pws.want_haves c d,
    eq_of_same c d,
  )

  send_haves-IsDistinct :
      (cs : List Cid) (pwm : Manager Cid Peer Set) (p : Peer) (pws : PeerWant Set)
      → IsDistinct (send_haves {Addr = Addr} pwm p pws cs).1
  unfolding send_haves as_have
  send_haves-IsDistinct [] pwm p pws = tt
  send_haves-IsDistinct (c ∷ cs) pwm p pws = ground (
    arith,
    send_haves-IsDistinct cs pwm p pws,
    send_haves-IsDistinct cs (store pwm p (as_have pws c) c) p (as_have pws c),
    contains-send_haves cs (store pwm p (as_have pws c) c) p (as_have pws c) c,
    sets.has-add pws.want_haves c c,
  )

  sent-send_blocks :
      (cs : List Cid) (pwm : Manager Cid Peer Set) (p : Peer) (pws : PeerWant Set) (d : Cid)
      → lookup p pwm.peer_wants ≡ some pws
      → (sent (send_blocks {Addr = Addr} pwm p pws cs).0 p d ≡ (contains d cs || was_sent pws d))
        × (is_some (lookup p (send_blocks {Addr = Addr} pwm p pws cs).0.peer_wants) ≡ true)
        × ((send_blocks {Addr = Addr} pwm p pws cs).0.broadcast_wants ≡ pwm.broadcast_wants)
  unfolding send_blocks
  sent-send_blocks [] pwm p pws d e = ground (arith, e)
  sent-send_blocks (c ∷ cs) pwm p pws d e = ground (
    arith,
    sent-send_blocks cs pwm p pws d e,
    sent-send_blocks cs (store pwm p (as_block pws c) c) p (as_block pws c) d
        (lookup-store pwm p (as_block pws c) c),
    was_sent-as_block pws c d,
    broadcast-store pwm p (as_block pws c) c,
    eq_of_same c d,
  )

  sent-send_haves :
      (cs : List Cid) (pwm : Manager Cid Peer Set) (p : Peer) (pws : PeerWant Set) (d : Cid)
      → lookup p pwm.peer_wants ≡ some pws
      → sent (send_haves {Addr = Addr} pwm p pws cs).0 p d
        ≡ ((contains d cs && not (sets.has pwm.broadcast_wants d)) || was_sent pws d)
  unfolding send_haves
  sent-send_haves [] pwm p pws d e = ground (arith, e)
  sent-send_haves (c ∷ cs) pwm p pws d e = ground (
    arith,
    sent-send_haves cs pwm p pws d e,
    sent-send_haves cs (store pwm p (as_have pws c) c) p (as_have pws c) d
        (lookup-store pwm p (as_have pws c) c),
    was_sent-as_have pws c d,
    broadcast-store pwm p (as_have pws c) c,
    eq_of_same c d,
  )

  -- To a known peer SendWants sends exactly one batch, after it counted up the gauges, and tells no
  -- queue anything else: each want-block of the call once, unless it was sent
  -- as a want-block before; each want-have once, unless it is broadcast, was sent before or is among
  -- the want-blocks of the call. The peer's wants are then those of before and the batch.
  pub send_wants_lem :
      (pwm : Manager Cid Peer Set) (p : Peer) (pws : PeerWant Set) (blocks haves : List Cid)
      (d : Cid)
      → lookup p pwm.peer_wants ≡ some pws
      → (gauges : List (Effect Cid Peer Addr)) × (bs : List Cid) × (hs : List Cid) × ((send_wants
            pwm p blocks haves).1
          ≡ gauges ++ add_wants p bs hs ∷ [])
        × (only_gauges gauges ≡ true)
        × IsDistinct bs
        × IsDistinct hs
        × (contains d bs ≡ (contains d blocks && not (sets.has pws.want_blocks d)))
        × (contains d hs ≡ (
            contains d haves
            && not (sets.has pwm.broadcast_wants d || (contains d blocks || was_sent pws d))))
        × (sent (send_wants {Addr = Addr} pwm p blocks haves).0 p d
            ≡ (was_sent pws d || (contains d bs || contains d hs)))
  unfolding send_wants
  send_wants_lem pwm p pws blocks haves d e =
      let r1 = send_blocks {Addr = Addr} pwm p pws blocks in
      let pws1 = or_default pws (lookup p r1.0.peer_wants) in
      let r2 = send_haves {Addr = Addr} r1.0 p pws1 haves in
      let (s1, k1, b1) = sent-send_blocks blocks pwm p pws d e in
      let h1 : lookup p r1.0.peer_wants ≡ some pws1 = ground (arith, k1) in
      (
        r1.2 ++ r2.2,
        r1.1,
        r2.1,
        rw (e, send_wants) refl,
        only_gauges-append r1.2 r2.2 (send_blocks_gauges blocks pwm p pws)
            (send_haves_gauges haves r1.0 p pws1),
        send_blocks-IsDistinct blocks pwm p pws,
        send_haves-IsDistinct haves r1.0 p pws1,
        contains-send_blocks blocks pwm p pws d,
        ground (arith, s1, h1, b1, contains-send_haves haves r1.0 p pws1 d),
        ground (
          arith,
          e,
          s1,
          b1,
          sent-send_haves haves r1.0 p pws1 d h1,
          contains-send_haves haves r1.0 p pws1 d,
          contains-send_blocks blocks pwm p pws d,
        ),
      )
