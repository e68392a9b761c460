-- ===== src/PeerWants/Send/Told.antt =====
-- What SendCancels tells one peer and many: the cancels among its effects.
use boxo.Base.{
  Bool, false, not, ◌++◌, ◌||◌, same, contains-append, ◌&&◌, List, [], ◌∷◌, some, Key, eq_of_same,
  if◌then◌else◌, is_some, contains, arith, ◌≡◌, refl, Option-cases, inl, inr,
}
use boxo.Base.Map.{lookup, lookup-insert}
use boxo.Base.Nested.{is_empty}
use boxo.Base.Sets.{SetOps}
use boxo.PeerWants.{Effect, add_cancels, PeerWant, Manager, was_sent}
use boxo.PeerWants.Send.{cancel_from, send_cancel, send_cancels_to, cancel_gauges}
use boxo.PeerWants.Send.Index.{sent}

module _ {Cid Set : Type 0} ⦃ck : Key Cid⦄ ⦃sets : SetOps Cid Set⦄ where
  pub was_sent-cancel_from :
      (bcst : Set) (ks : List Cid) (pws : PeerWant Set) (d : Cid)
      → was_sent (cancel_from bcst pws ks).0 d ≡ (was_sent pws d && not (contains d ks))
  unfolding cancel_from
  was_sent-cancel_from bcst [] pws d = ground arith
  was_sent-cancel_from bcst (c ∷ cs) pws d =
      let pws' : PeerWant Set = record {
        want_blocks = sets.remove pws.want_blocks c;
        want_haves = sets.remove pws.want_haves c;
      } in
      ground (
        arith,
        was_sent-cancel_from bcst cs pws d,
        was_sent-cancel_from bcst cs pws' d,
        sets.has-remove pws.want_blocks c d,
        sets.has-remove pws.want_haves c d,
        eq_of_same c d,
      )

  contains-cancel_from :
      (bcst : Set) (ks : List Cid) (pws : PeerWant Set) (d : Cid)
      → contains d (cancel_from bcst pws ks).1
        ≡ (contains d ks && (was_sent pws d && not (sets.has bcst d)))
  unfolding cancel_from
  contains-cancel_from bcst [] pws d = refl
  contains-cancel_from bcst (c ∷ cs) pws d =
      let pws' : PeerWant Set = record {
        want_blocks = sets.remove pws.want_blocks c;
        want_haves = sets.remove pws.want_haves c;
      } in
      ground (
        arith,
        contains-cancel_from bcst cs pws d,
        contains-cancel_from bcst cs pws' d,
        sets.has-remove pws.want_blocks c d,
        sets.has-remove pws.want_haves c d,
        eq_of_same c d,
      )

module _ {Cid Peer Addr : Type 0} ⦃ck : Key Cid⦄ ⦃pk : Key Peer⦄ where
  is_cancel_of : Peer → Cid → Effect Cid Peer Addr → Bool
  is_cancel_of p d (add_cancels q cs) = same q p && contains d cs
  is_cancel_of p d _ = false

  -- whether one of the effects sends the peer a cancel of the CID
  unfoldable pub cancels : Peer → Cid → List (Effect Cid Peer Addr) → Bool
  unfolding is_cancel_of
  cancels p d [] = false
  cancels p d (e ∷ es) = is_cancel_of p d e || cancels p d es

  pub cancels-append :
      (p : Peer) (d : Cid) (es fs : List (Effect Cid Peer Addr))
      → cancels p d (es ++ fs) ≡ (cancels p d es || cancels p d fs)
  unfolding cancels
  cancels-append p d [] fs = refl
  cancels-append p d (e ∷ es) fs = ground (arith, cancels-append p d es fs)

module _ {Cid Peer : Type 0} (Addr : Type 0) ⦃ck : Key Cid⦄ ⦃pk : Key Peer⦄ where
  cancels_batch :
      (p q : Peer) (d : Cid) (cs : List Cid)
      → cancels {Addr = Addr} q d (if is_empty cs then [] else add_cancels p cs ∷ [])
        ≡ (same p q && contains d cs)
  unfolding cancels is_cancel_of
  cancels_batch p q d [] = ground arith
  cancels_batch p q d (c ∷ cs) = ground arith

module _ {Cid Peer Set : Type 0} (Addr : Type 0) ⦃ck : Key Cid⦄ ⦃pk : Key Peer⦄
    ⦃sets : SetOps Cid Set⦄ where
  pub cancels-cancel_gauges :
      (pwm : Manager Cid Peer Set) (ks : List Cid) (q : Peer) (d : Cid)
      → cancels q d (cancel_gauges {Addr = Addr} pwm ks) ≡ false
  unfolding cancel_gauges cancels is_cancel_of
  cancels-cancel_gauges pwm [] q d = refl
  cancels-cancel_gauges pwm (c ∷ cs) q d = ground (arith, cancels-cancel_gauges pwm cs q d)

  cancels-send_cancel :
      (ks bcst : List Cid) (pwm : Manager Cid Peer Set) (p : Peer) (pws : PeerWant Set) (q : Peer)
      (d : Cid)
      → cancels q d (send_cancel {Addr = Addr} ks bcst pwm p pws).1 ≡ (
          same p q
          && (contains d bcst
              || (contains d ks && (was_sent pws d && not (sets.has pwm.broadcast_wants d)))))
  unfolding send_cancel
  cancels-send_cancel ks bcst pwm p pws q d =
      let more = (cancel_from pwm.broadcast_wants pws ks).1 in
      ground (
        arith,
        cancels_batch Addr p q d (bcst ++ more),
        contains-append d bcst more,
        contains-cancel_from pwm.broadcast_wants ks pws d,
      )

  -- one peer is cleared of the cancelled CIDs, and the others are left alone
  pub send_cancel_lem :
      (ks bcst : List Cid) (pwm : Manager Cid Peer Set) (p : Peer) (pws : PeerWant Set) (q : Peer)
      (d : Cid)
      → lookup p pwm.peer_wants ≡ some pws
      → (sent (send_cancel {Addr = Addr} ks bcst pwm p pws).0 q d
          ≡ (sent pwm q d && not (same p q && contains d ks)))
        × (is_some (lookup q (send_cancel {Addr = Addr} ks bcst pwm p pws).0.peer_wants)
            ≡ is_some (lookup q pwm.peer_wants))
        × ((send_cancel {Addr = Addr} ks bcst pwm p pws).0.broadcast_wants ≡ pwm.broadcast_wants)
  unfolding send_cancel
  send_cancel_lem ks bcst pwm p pws q d e = ground (
    arith,
    e,
    lookup-insert p q (cancel_from pwm.broadcast_wants pws ks).0 pwm.peer_wants,
    was_sent-cancel_from pwm.broadcast_wants ks pws d,
    eq_of_same p q,
  )

  pub cancels-send_cancels_to :
      (ks bcst : List Cid) (ps : List Peer) (pwm : Manager Cid Peer Set) (q : Peer) (d : Cid)
      → cancels q d (send_cancels_to {Addr = Addr} ks bcst pwm ps).1 ≡ (
          contains q ps
          && (is_some (lookup q pwm.peer_wants)
              && (contains d bcst
                  || (contains d ks && (sent pwm q d && not (sets.has pwm.broadcast_wants d))))))
  unfolding send_cancels_to cancels
  cancels-send_cancels_to ks bcst [] pwm q d = refl
  cancels-send_cancels_to ks bcst (p ∷ ps) pwm q d = elim (Option-cases (lookup p pwm.peer_wants)) [
    | inl e ↦ ground (arith, e, cancels-send_cancels_to ks bcst ps pwm q d, eq_of_same p q)
    | inr (pws, e) ↦
        let (pwm1, es1) = send_cancel {Addr = Addr} ks bcst pwm p pws in
        ground (
          arith,
          e,
          cancels-append q d es1 (send_cancels_to {Addr = Addr} ks bcst pwm1 ps).1,
          cancels-send_cancel ks bcst pwm p pws q d,
          cancels-send_cancels_to ks bcst ps pwm1 q d,
          send_cancel_lem ks bcst pwm p pws q d,
          eq_of_same p q,
        )
  ]
