-- ===== src/PeerLedger/Inverse.antt =====
-- The two maps of the ledger as inversions of one another.
use boxo.Base.{
  Bool, false, ◌&&◌, Option, none, some, List, [], ◌∷◌, Key, same, contains, if◌then◌else◌, arith,
  ◌≡◌, refl, Option-cases, inl, inr, eq_of_same,
}
use boxo.Base.Map.{Map, lookup, delete, keys, contains-keys, lookup-delete}
use boxo.Base.Nested.{
  get2, get2-put2, get2-del2, get2-restore, get2-delete, get2_absent, get2_present,
}
use boxo.Wire.{WantType, is_block, is_have}
use boxo.Wantlist
use boxo.PeerLedger.{
  Want, Ledger, wants, remove_peer_from_cid, drop_want, cancel_want, cancel_want_with_type,
  clear_cids, clear_peer_wantlist, peer_disconnected,
}

-- The want outlives a cancel with a type: a want-block does, if we sent only a HAVE.
abbrev pub outlives : Option Want → WantType → Bool
outlives none t = false
outlives (some w) t = is_have t && is_block w.want_type

module _ {Cid Peer : Type 0} ⦃ck : Key Cid⦄ ⦃pk : Key Peer⦄ where
  -- The want as the peer's wantlist has it, and as the CID's list of peers has it.
  abbrev pub by_peer : Ledger Cid Peer → Peer → Cid → Option Want
  by_peer l p c = get2 p c l.peers

  abbrev pub by_cid : Ledger Cid Peer → Peer → Cid → Option Want
  by_cid l p c = get2 c p l.cids

  abbrev pub IsInverse : Ledger Cid Peer → Type 0
  IsInverse l = (p : Peer) (c : Cid) → by_peer l p c ≡ by_cid l p c

  -- The ledger after a want of `p` for `c` is set to `w`.
  abbrev pub Sets : Ledger Cid Peer → Ledger Cid Peer → Peer → Cid → Option Want → Type 0
  Sets l l' p c w =
      (q : Peer) (d : Cid)
      → (by_peer l' q d ≡ (if same p q && same c d then w else by_peer l q d))
        × (by_cid l' q d ≡ (if same p q && same c d then w else by_cid l q d))

  -- Wants records the peer's want in both maps, under its priority and type, and changes no other.
  pub wants-Sets :
      (l : Ledger Cid Peer) (p : Peer) (e : Wantlist.Entry Cid)
      → Sets l
          (wants l p e)
          p
          e.cid
          (some (record { priority = e.priority; want_type = e.want_type }))
  unfolding wants
  wants-Sets l p e q d =
      let w : Want = record { priority = e.priority; want_type = e.want_type } in
      (
        ground (arith, get2-put2 p q e.cid d w l.peers),
        ground (arith, get2-put2 e.cid d p q w l.cids),
      )

  drop_want-Sets :
      (l : Ledger Cid Peer) (p : Peer) (k : Cid) (ws : Map Cid Want)
      → lookup p l.peers ≡ some ws
      → Sets l (drop_want l p k ws) p k none
  unfolding drop_want
  drop_want-Sets l p k ws h q d = (
    ground (
      arith,
      get2-restore p q d (delete k ws) l.peers,
      lookup-delete k d ws,
      get2_present p d ws l.peers h,
      eq_of_same p q,
    ),
    ground (arith, get2-del2 k d p q l.cids),
  )

  -- When the peer has no wantlist, there is nothing to cancel.
  absent-Sets :
      (l : Ledger Cid Peer) (p : Peer) (k : Cid)
      → IsInverse l
      → by_peer l p k ≡ none
      → Sets l l p k none
  absent-Sets l p k v h q d = (
    ground (arith, eq_of_same p q, eq_of_same k d),
    ground (arith, v p k, eq_of_same p q, eq_of_same k d),
  )

  pub cancel_want-Sets :
      (l : Ledger Cid Peer) (p : Peer) (k : Cid)
      → IsInverse l
      → Sets l (cancel_want l p k).0 p k none
  unfolding cancel_want
  cancel_want-Sets l p k v q d = elim (Option-cases (lookup p l.peers)) [
    | inl e ↦ rw (e, cancel_want) (absent-Sets l p k v (get2_absent p k l.peers e) q d)
    | inr (ws, e) ↦ rw (e, cancel_want) (drop_want-Sets l p k ws e q d)
  ]

  pub cancel_want_with_type-Sets :
      (l : Ledger Cid Peer) (p : Peer) (k : Cid) (t : WantType)
      → IsInverse l
      → Sets l
          (cancel_want_with_type l p k t)
          p
          k
          (if outlives (by_peer l p k) t then by_peer l p k else none)
  unfolding cancel_want_with_type
  cancel_want_with_type-Sets l p k t v q d = elim (Option-cases (lookup p l.peers)) [
    | inl e ↦
        ground
          (arith, e, absent-Sets l p k v (get2_absent p k l.peers e) q d, get2_absent p k l.peers e)
    | inr (ws, e) ↦ ground (
      arith,
      e,
      v p k,
      drop_want-Sets l p k ws e q d,
      get2_present p k ws l.peers e,
      eq_of_same p q,
      eq_of_same k d,
    )
  ]

  by_cid-clear_cids :
      (l : Ledger Cid Peer) (p q : Peer) (d : Cid) (cs : List Cid)
      → by_cid (clear_cids l p cs) q d ≡ (if same p q && contains d cs then none else by_cid l q d)
  unfolding clear_cids remove_peer_from_cid
  by_cid-clear_cids l p q d [] = ground arith
  by_cid-clear_cids l p q d (c ∷ cs) =
      ground
        (arith, by_cid-clear_cids (remove_peer_from_cid l p c) p q d cs, get2-del2 c d p q l.cids)

  peers-clear_cids :
      (l : Ledger Cid Peer) (p : Peer) (cs : List Cid) → (clear_cids l p cs).peers ≡ l.peers
  unfolding clear_cids remove_peer_from_cid
  peers-clear_cids l p [] = refl
  peers-clear_cids l p (c ∷ cs) = peers-clear_cids (remove_peer_from_cid l p c) p cs

  -- ClearPeerWantlist takes the peer out of the list of every CID, and leaves the peer's own
  -- wantlist, and the lists as far as they are about other peers, as they were.
  pub clear_peer_wantlist_lem :
      (l : Ledger Cid Peer) (p q : Peer) (d : Cid)
      → IsInverse l
      → ((clear_peer_wantlist l p).peers ≡ l.peers)
        × (by_cid (clear_peer_wantlist l p) q d ≡ (if same p q then none else by_cid l q d))
  unfolding clear_peer_wantlist
  clear_peer_wantlist_lem l p q d v = elim (Option-cases (lookup p l.peers)) [
    | inl e ↦ (ground arith, ground (arith, e, v p d, get2_absent p d l.peers e, eq_of_same p q))
    | inr (ws, e) ↦ (
      ground (arith, e, peers-clear_cids l p (keys ws)),
      ground (
        arith,
        e,
        v p d,
        get2_present p d ws l.peers e,
        by_cid-clear_cids l p q d (keys ws),
        contains-keys d ws,
        eq_of_same p q,
      ),
    )
  ]

  -- The two maps are no inversions after ClearPeerWantlist, whenever the peer wanted anything: its
  -- wantlist still has the want, and the CID's list of peers has it not.
  pub clear_peer_wantlist_not-IsInverse :
      (l : Ledger Cid Peer) (p : Peer) (c : Cid) (w : Want)
      → IsInverse l
      → by_peer l p c ≡ some w
      → (by_peer (clear_peer_wantlist l p) p c ≡ some w)
        × (by_cid (clear_peer_wantlist l p) p c ≡ none)
        × (¬ IsInverse (clear_peer_wantlist l p))
  clear_peer_wantlist_not-IsInverse l p c w v h =
      let (kept, gone) = clear_peer_wantlist_lem l p p c v in
      let has : by_peer (clear_peer_wantlist l p) p c ≡ some w = rw kept h in
      let lacks : by_cid (clear_peer_wantlist l p) p c ≡ none = ground (arith, gone) in
      (has, lacks, λ inv. cc (inv p c, has, lacks))

  -- PeerDisconnected takes every want of the peer out of both maps, and no want of another peer.
  pub peer_disconnected_lem :
      (l : Ledger Cid Peer) (p q : Peer) (d : Cid)
      → IsInverse l
      → (by_peer (peer_disconnected l p) q d ≡ (if same p q then none else by_peer l q d))
        × (by_cid (peer_disconnected l p) q d ≡ (if same p q then none else by_cid l q d))
  unfolding peer_disconnected
  peer_disconnected_lem l p q d v =
      let (kept, gone) = clear_peer_wantlist_lem l p q d v in
      (ground (arith, kept, get2-delete p q d (clear_peer_wantlist l p).peers), gone)
