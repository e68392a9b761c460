-- ===== src/PeerWants/Send/Broadcast.antt =====
-- What BroadcastWantHaves records and sends.
use boxo.Base.{
  Bool, false, not, ◌&&◌, ◌||◌, none, some, List, [], ◌∷◌, ◌++◌, Key, same, eq_of_same,
  if◌then◌else◌, contains, arith, ◌≡◌, refl, contains-select,
}
use boxo.Base.Map.{Map, lookup, has_key, contains-keys, HasDistinctKeys}
use boxo.Base.Nested.{is_empty}
use boxo.Base.Sets.{SetOps}
use boxo.PeerWants.{Effect, PeerWant, Manager, was_sent, add_broadcast_want_haves, inc_wants}
use boxo.PeerWants.Send.{broadcast_new, broadcast_to, broadcast_want_haves}

module _ {Cid Peer Addr : Type 0} ⦃ck : Key Cid⦄ ⦃pk : Key Peer⦄ where
  -- whether the effect broadcasts a want for the CID to the peer
  pub is_broadcast_of : Peer → Cid → Effect Cid Peer Addr → Bool
  is_broadcast_of p d (add_broadcast_want_haves q cs) = same q p && contains d cs
  is_broadcast_of p d _ = false

  unfoldable pub broadcasts : Peer → Cid → List (Effect Cid Peer Addr) → Bool
  unfolding is_broadcast_of
  broadcasts p d [] = false
  broadcasts p d (e ∷ es) = is_broadcast_of p d e || broadcasts p d es

  broadcasts-append :
      (p : Peer) (d : Cid) (es fs : List (Effect Cid Peer Addr))
      → broadcasts p d (es ++ fs) ≡ (broadcasts p d es || broadcasts p d fs)
  unfolding broadcasts
  broadcasts-append p d [] fs = refl
  broadcasts-append p d (e ∷ es) fs = ground (arith, broadcasts-append p d es fs)

module _ {Cid Peer Set : Type 0} (Addr : Type 0) ⦃ck : Key Cid⦄ ⦃pk : Key Peer⦄
    ⦃sets : SetOps Cid Set⦄ where
  broadcast_new_lem :
      (cs : List Cid) (pwm : Manager Cid Peer Set) (p : Peer) (d : Cid)
      → (contains d (broadcast_new {Addr = Addr} pwm cs).1
          ≡ (contains d cs && not (sets.has pwm.broadcast_wants d)))
        × (sets.has (broadcast_new {Addr = Addr} pwm cs).0.broadcast_wants d
            ≡ (contains d cs || sets.has pwm.broadcast_wants d))
        × (broadcasts p d (broadcast_new {Addr = Addr} pwm cs).2 ≡ false)
  unfolding broadcast_new broadcasts is_broadcast_of
  broadcast_new_lem [] pwm p d = (refl, refl, refl)
  broadcast_new_lem (c ∷ cs) pwm p d =
      let pwm' = record pwm { broadcast_wants = sets.add pwm.broadcast_wants c } in
      ground (
        arith,
        broadcast_new_lem cs pwm p d,
        broadcast_new_lem cs pwm' p d,
        sets.has-add pwm.broadcast_wants c d,
        broadcasts-append p d (if has_key c pwm.want_peers then [] else inc_wants ∷ [])
            (broadcast_new {Addr = Addr} pwm' cs).2,
        eq_of_same c d,
      )

  broadcast_to_lem :
      (m : Map Peer (PeerWant Set)) (unsent : List Cid) (p : Peer) (d : Cid)
      → HasDistinctKeys m
      → broadcasts p d (broadcast_to {Addr = Addr} m unsent)
        ≡ elim (lookup p m) [ none ↦ false | some w ↦ contains d unsent && not (was_sent w d) ]
  unfolding broadcast_to broadcasts is_broadcast_of lookup
  broadcast_to_lem [] unsent p d h = refl
  broadcast_to_lem ((q, w) ∷ m) unsent p d h = ground (
    arith,
    broadcast_to_lem m unsent p d h.1,
    contains-select (λ c. not (was_sent w c)) d unsent,
    contains-keys p m,
    eq_of_same q p,
  )

  -- BroadcastWantHaves records each CID as a broadcast want, and sends it to each peer exactly if it
  -- was no broadcast want before and no want for it was sent to that peer; the peers stand in the map
  -- once.
  pub broadcast_want_haves_lem :
      (pwm : Manager Cid Peer Set) (cs : List Cid) (p : Peer) (d : Cid)
      → HasDistinctKeys pwm.peer_wants
      → (sets.has (broadcast_want_haves {Addr = Addr} pwm cs).0.broadcast_wants d
          ≡ (contains d cs || sets.has pwm.broadcast_wants d))
        × (broadcasts p d (broadcast_want_haves {Addr = Addr} pwm cs).1
            ≡ elim (lookup p pwm.peer_wants) [
              | none ↦ false
              | some w ↦
                  (contains d cs && not (sets.has pwm.broadcast_wants d)) && not (was_sent w d)
            ])
  unfolding broadcast_want_haves broadcasts
  broadcast_want_haves_lem pwm cs p d h =
      let r = broadcast_new {Addr = Addr} pwm cs in
      ground (
        arith,
        broadcast_new_lem cs pwm p d,
        broadcast_to_lem pwm.peer_wants r.1 p d h,
        broadcasts-append p d r.2 (if is_empty r.1 then [] else broadcast_to pwm.peer_wants r.1),
      )
