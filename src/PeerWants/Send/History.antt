-- ===== src/PeerWants/Send/History.antt =====
-- The manager through sequences of calls.
use boxo.Base.{List, [], ◌∷◌, Key, arith, ◌≡◌, refl}
use boxo.Base.Sets.{SetOps}
use boxo.PeerWants.{Manager, add_peer, remove_peer}
use boxo.PeerWants.Send.{broadcast_new, broadcast_want_haves, send_wants, send_cancels}
use boxo.PeerWants.Send.Index.{IsIndexed, add_peer-IsIndexed, remove_peer_lem, send_wants-IsIndexed}
use boxo.PeerWants.Send.Cancel.{send_cancels_lem}

-- The calls of the peer manager that change the wants.
pub data Call (Cid Peer : Type 0) : Type 0 where
  connect disconnect : Peer → Call Cid Peer
  broadcast : List Cid → Call Cid Peer
  send : Peer → List Cid → List Cid → Call Cid Peer
  cancel : List Cid → Call Cid Peer

module _ {Cid Peer Set : Type 0} (Addr : Type 0) ⦃ck : Key Cid⦄ ⦃pk : Key Peer⦄
    ⦃sets : SetOps Cid Set⦄ where
  unfoldable pub step : Manager Cid Peer Set → Call Cid Peer → Manager Cid Peer Set
  step pwm (connect p) = (add_peer {Addr = Addr} pwm p).0
  step pwm (disconnect p) = (remove_peer {Addr = Addr} pwm p).0
  step pwm (broadcast cs) = (broadcast_want_haves {Addr = Addr} pwm cs).0
  step pwm (send p blocks haves) = (send_wants {Addr = Addr} pwm p blocks haves).0
  step pwm (cancel ks) = (send_cancels {Addr = Addr} pwm ks).0

  unfoldable pub run : Manager Cid Peer Set → List (Call Cid Peer) → Manager Cid Peer Set
  unfolding step
  run pwm [] = pwm
  run pwm (call ∷ calls) = run (step pwm call) calls

  broadcast_new_rest :
      (cs : List Cid) (pwm : Manager Cid Peer Set)
      → ((broadcast_new {Addr = Addr} pwm cs).0.peer_wants ≡ pwm.peer_wants)
        × ((broadcast_new {Addr = Addr} pwm cs).0.want_peers ≡ pwm.want_peers)
  unfolding broadcast_new
  broadcast_new_rest [] pwm = (refl, refl)
  broadcast_new_rest (c ∷ cs) pwm = ground (
    arith,
    broadcast_new_rest cs pwm,
    broadcast_new_rest cs (record pwm { broadcast_wants = sets.add pwm.broadcast_wants c }),
  )

  step-IsIndexed :
      (pwm : Manager Cid Peer Set) (call : Call Cid Peer)
      → IsIndexed pwm
      → IsIndexed (step pwm call)
  unfolding step broadcast_want_haves
  step-IsIndexed pwm (connect p) i = add_peer-IsIndexed Addr pwm p i
  step-IsIndexed pwm (disconnect p) i = λ q d. ground (arith, remove_peer_lem Addr pwm p q d i)
  step-IsIndexed pwm (broadcast cs) i = λ q d. ground (arith, i q d, broadcast_new_rest cs pwm)
  step-IsIndexed pwm (send p blocks haves) i = send_wants-IsIndexed Addr pwm p blocks haves i
  step-IsIndexed pwm (cancel ks) i = λ q d. ground (arith, send_cancels_lem Addr pwm ks q d i)

  -- Through every sequence of calls the reverse index lists a peer under a CID exactly if a want for
  -- the CID was sent to the peer and is pending, whatever peers come and go.
  pub run-IsIndexed :
      (pwm : Manager Cid Peer Set) (calls : List (Call Cid Peer))
      → IsIndexed pwm
      → IsIndexed (run pwm calls)
  unfolding run
  run-IsIndexed pwm [] i = i
  run-IsIndexed pwm (call ∷ calls) i =
      run-IsIndexed (step pwm call) calls (step-IsIndexed pwm call i)
