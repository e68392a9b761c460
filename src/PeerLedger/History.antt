-- ===== src/PeerLedger/History.antt =====
-- The ledger against a table of wants: what a sequence of calls leaves for each peer and CID.
use boxo.Base.{
  false, not, ◌&&◌, Option, none, some, List, [], ◌∷◌, Key, same, if◌then◌else◌, arith, ◌≡◌, ◌==◌,
  Option-cases, inl, inr,
}
use boxo.Base.Map.{lookup, keys}
use boxo.Base.Nested.{
  HasNoEmpty, put2-HasNoEmpty, del2-HasNoEmpty, restore-HasNoEmpty, delete-HasNoEmpty, is_empty,
}
use boxo.Wire.{WantType}
use boxo.Wantlist
use boxo.PeerLedger.{
  Want, Ledger, wants, remove_peer_from_cid, drop_want, cancel_want, cancel_want_with_type,
  clear_cids, clear_peer_wantlist, peer_disconnected, wantlist_size_for_peer,
}
use boxo.PeerLedger.Inverse.{
  by_peer, by_cid, IsInverse, wants-Sets, cancel_want-Sets, outlives, cancel_want_with_type-Sets,
  peer_disconnected_lem,
}

-- The calls of the engine on a ledger, ClearPeerWantlist excepted.
pub data Call (Cid Peer : Type 0) : Type 0 where
  want : Peer → Wantlist.Entry Cid → Call Cid Peer
  cancel : Peer → Cid → Call Cid Peer
  cancel_typed : Peer → Cid → WantType → Call Cid Peer
  disconnect : Peer → Call Cid Peer

-- The table that the ledger stands for: the want of each peer for each CID.
abbrev pub Table : Type 0 → Type 0 → Type 0
Table Cid Peer = Peer → Cid → Option Want

module _ {Cid Peer : Type 0} ⦃ck : Key Cid⦄ ⦃pk : Key Peer⦄ where
  pub step : Ledger Cid Peer → Call Cid Peer → Ledger Cid Peer
  step l (want p e) = wants l p e
  step l (cancel p k) = (cancel_want l p k).0
  step l (cancel_typed p k t) = cancel_want_with_type l p k t
  step l (disconnect p) = peer_disconnected l p

  pub run : Ledger Cid Peer → List (Call Cid Peer) → Ledger Cid Peer
  run l [] = l
  run l (call ∷ calls) = run (step l call) calls

  pub table_step : Table Cid Peer → Call Cid Peer → Table Cid Peer
  table_step t (want p e) q d =
      if same p q && same e.cid d
      then some (record { priority = e.priority; want_type = e.want_type })
      else t q d
  table_step t (cancel p k) q d = if same p q && same k d then none else t q d
  table_step t (cancel_typed p k w) q d =
      if same p q && same k d then (if outlives (t p k) w then t p k else none) else t q d
  table_step t (disconnect p) q d = if same p q then none else t q d

  pub table_run : Table Cid Peer → List (Call Cid Peer) → Table Cid Peer
  table_run t [] = t
  table_run t (call ∷ calls) = table_run (table_step t call) calls

  -- Both maps of the ledger hold the table.
  abbrev pub Holds : Table Cid Peer → Ledger Cid Peer → Type 0
  Holds t l = (q : Peer) (d : Cid) → (by_peer l q d ≡ t q d) × (by_cid l q d ≡ t q d)

  Holds-IsInverse : (t : Table Cid Peer) (l : Ledger Cid Peer) → Holds t l → IsInverse l
  Holds-IsInverse t l h q d = ground (arith, h q d)

  step-Holds :
      (t : Table Cid Peer) (l : Ledger Cid Peer) (call : Call Cid Peer)
      → Holds t l
      → Holds (table_step t call) (step l call)
  unfolding step table_step
  step-Holds t l (want p e) h q d = ground (arith, wants-Sets l p e q d, h q d)
  step-Holds t l (cancel p k) h q d =
      ground (arith, cancel_want-Sets l p k (Holds-IsInverse t l h) q d, h q d)
  step-Holds t l (cancel_typed p k w) h q d =
      ground (arith, cancel_want_with_type-Sets l p k w (Holds-IsInverse t l h) q d, h q d, h p k)
  step-Holds t l (disconnect p) h q d =
      ground (arith, peer_disconnected_lem l p q d (Holds-IsInverse t l h), h q d)

  -- Through every sequence of Wants, CancelWant, CancelWantWithType and PeerDisconnected, both maps
  -- of the ledger hold the same table of wants, and it is the one that the calls describe: a want
  -- sets the entry of its peer and CID, a cancel clears it (but not a want-block, against a
  -- want-have), and a disconnect clears the peer.
  pub run-Holds :
      (t : Table Cid Peer) (l : Ledger Cid Peer) (calls : List (Call Cid Peer))
      → Holds t l
      → Holds (table_run t calls) (run l calls)
  unfolding run table_run
  run-Holds t l [] h = h
  run-Holds t l (call ∷ calls) h =
      run-Holds (table_step t call) (step l call) calls (step-Holds t l call h)

  -- No peer and no CID is listed with nothing under it.
  abbrev pub IsFull : Ledger Cid Peer → Type 0
  IsFull l = HasNoEmpty l.peers × HasNoEmpty l.cids

  drop_want-IsFull :
      (l : Ledger Cid Peer) (p : Peer) (k : Cid) (ws : _) → IsFull l → IsFull (drop_want l p k ws)
  unfolding drop_want
  drop_want-IsFull l p k ws f = (restore-HasNoEmpty p _ l.peers f.0, del2-HasNoEmpty k p l.cids f.1)

  clear_cids-IsFull :
      (l : Ledger Cid Peer) (p : Peer) (cs : List Cid) → IsFull l → IsFull (clear_cids l p cs)
  unfolding clear_cids remove_peer_from_cid
  clear_cids-IsFull l p [] f = f
  clear_cids-IsFull l p (c ∷ cs) f =
      clear_cids-IsFull (remove_peer_from_cid l p c) p cs (f.0, del2-HasNoEmpty c p l.cids f.1)

  clear_peer_wantlist-IsFull :
      (l : Ledger Cid Peer) (p : Peer) → IsFull l → IsFull (clear_peer_wantlist l p)
  unfolding clear_peer_wantlist
  clear_peer_wantlist-IsFull l p f = elim (Option-cases (lookup p l.peers)) [
    | inl e ↦ ground (arith, e)
    | inr (ws, e) ↦ ground (arith, e, clear_cids-IsFull l p (keys ws) f)
  ]

  step-IsFull : (l : Ledger Cid Peer) (call : Call Cid Peer) → IsFull l → IsFull (step l call)
  unfolding step wants cancel_want cancel_want_with_type peer_disconnected
  step-IsFull l (want p e) f = (put2-HasNoEmpty p _ _ _ f.0, put2-HasNoEmpty _ p _ _ f.1)
  step-IsFull l (cancel p k) f = elim (Option-cases (lookup p l.peers)) [
    | inl e ↦ ground (arith, e)
    | inr (ws, e) ↦ ground (arith, e, drop_want-IsFull l p k ws f)
  ]
  step-IsFull l (cancel_typed p k t) f = elim (Option-cases (lookup p l.peers)) [
    | inl e ↦ ground (arith, e)
    | inr (ws, e) ↦ ground (arith, e, drop_want-IsFull l p k ws f)
  ]
  step-IsFull l (disconnect p) f =
      let g = clear_peer_wantlist-IsFull l p f in (delete-HasNoEmpty p _ g.0, g.1)

  -- Through every such sequence of calls no peer and no CID stays listed with nothing under it.
  pub run-IsFull :
      (l : Ledger Cid Peer) (calls : List (Call Cid Peer)) → IsFull l → IsFull (run l calls)
  unfolding run
  run-IsFull l [] f = f
  run-IsFull l (call ∷ calls) f = run-IsFull (step l call) calls (step-IsFull l call f)

  HasNoEmpty-lookup :
      (p : Peer) (m : _) (ws : _)
      → HasNoEmpty {K = Peer} {J = Cid} {V = Want} m
      → lookup p m ≡ some ws
      → is_empty ws ≡ false
  unfolding lookup
  HasNoEmpty-lookup p [] ws f e = cc
  HasNoEmpty-lookup p ((q, vs) ∷ m) ws f e = ground (arith, HasNoEmpty-lookup p m ws f.1)

  -- CancelWant returns true exactly when the peer wants anything at all, whether or not it wants
  -- the cancelled CID.
  pub cancel_want_result :
      (l : Ledger Cid Peer) (p : Peer) (k : Cid)
      → IsFull l
      → (cancel_want l p k).1 ≡ not (wantlist_size_for_peer l p == 0)
  unfolding cancel_want wantlist_size_for_peer
  cancel_want_result l p k f = elim (Option-cases (lookup p l.peers)) [
    | inl e ↦ ground (arith, e)
    | inr (ws, e) ↦ ground (arith, e, HasNoEmpty-lookup p l.peers ws f.0 e)
  ]
