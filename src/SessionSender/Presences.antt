-- ===== src/SessionSender/Presences.antt =====
-- The changes of block presences and of the availability of peers, in
-- bitswap/client/internal/session/sessionwantsender.go, ask no peer.
use boxo.Base.{
  ℕ, Bool, true, false, List, [], ◌∷◌, Key, same, if◌then◌else◌, arith, ◌≡◌, subst, refl, inl, inr,
  Bool-cases,
}
use boxo.Base.Map.{
  HasDistinctKeys, insert-HasDistinctKeys, delete-HasDistinctKeys, Map, keys, lookup, insert,
  has_key, lookup-insert,
}
use boxo.SessionPeers
use boxo.SessionSender.{Presence, dont_have, unknown, have, WantInfo, Sender, Floats, World}
use boxo.SessionSender.Infos.{
  new_want_info, calculate_best_peer, set_peer_block_presence, is_sent_to, remove_peer,
}
use boxo.SessionSender.Wants.{
  Moves, reset_count, known, update_want_block_presence, update_for_peers, track_want,
  remove_peer_from, update_wants_for, update_wants_peer_availability, peer_moved, set_availability,
  process_availability,
}
use boxo.SessionSender.Best.{best_of-IsBest}
use boxo.SessionSender.Infos.{best_of, presence_of}
use boxo.SessionSender.Less.{
  IsFresh, Harmless, waits_for, Calm, Less, Calm-trans, Calm-refl, Less-refl, Less-trans,
  modify-Less, if-Less, if-Calm, peers-Less, reset_count-Less,
}

module _ {Peer : Type 0} ⦃pk : Key Peer⦄ where
  new_info-IsFresh : IsFresh {Peer = Peer} new_want_info
  unfolding new_want_info presence_of lookup
  new_info-IsFresh = record { distinct = tt; is_best = λ q. refl }

module _ {Cid Peer : Type 0} ⦃ck : Key Cid⦄ ⦃pk : Key Peer⦄ where
  new_want-Calm :
      (c : Cid) (s : Sender Cid Peer) → Calm s (record s { wants = insert c new_want_info s.wants })
  unfolding new_want_info waits_for is_sent_to
  new_want-Calm c s = record {
    waits = λ k p h. ground (arith, lookup-insert c k new_want_info s.wants);
    sent = refl;
    proxy_kept = refl;
    fresh = λ h k wi e. elim (Bool-cases (same c k)) [
      | inl t ↦
          subst IsFresh (ground (arith, lookup-insert c k new_want_info s.wants)) new_info-IsFresh
      | inr t ↦ h k wi (ground (arith, lookup-insert c k new_want_info s.wants))
    ];
  }

module _ {Peer F : Type 0} ⦃pk : Key Peer⦄ ⦃fl : Floats F⦄ where
  -- A want is fresh when its best peer has been calculated.
  IsFresh-of :
      (responders : Map Peer ℕ) (draw : List Peer → F) (wi : WantInfo Peer)
      → HasDistinctKeys wi.block_presence
      → wi.best_peer ≡ best_of responders draw wi.block_presence
      → IsFresh wi
  IsFresh-of responders draw wi d e = record {
    distinct = d;
    is_best = rw e (best_of-IsBest responders draw wi.block_presence d);
  }

  set_presence-Harmless :
      (responders : Map Peer ℕ) (draw : List Peer → F) (p : Peer) (bp : Presence)
      → Harmless (set_peer_block_presence responders draw p bp)
  unfolding set_peer_block_presence calculate_best_peer is_sent_to
  set_presence-Harmless responders draw p dont_have = record {
    asks_none = λ q wi h. h;
    keeps_fresh = λ wi h.
        IsFresh-of responders draw (set_peer_block_presence responders draw p dont_have wi)
          (insert-HasDistinctKeys p dont_have wi.block_presence h.distinct) refl;
  }
  set_presence-Harmless responders draw p unknown = record {
    asks_none = λ q wi h. h;
    keeps_fresh = λ wi h.
        IsFresh-of responders draw (set_peer_block_presence responders draw p unknown wi)
          (insert-HasDistinctKeys p unknown wi.block_presence h.distinct) refl;
  }
  set_presence-Harmless responders draw p have = record {
    asks_none = λ q wi h. h;
    keeps_fresh = λ wi h.
        IsFresh-of responders draw (set_peer_block_presence responders draw p have wi)
          (insert-HasDistinctKeys p have wi.block_presence h.distinct) refl;
  }

  removed_distinct :
      (responders : Map Peer ℕ) (draw : List Peer → F) (p : Peer) (wi : WantInfo Peer)
      → HasDistinctKeys wi.block_presence
      → HasDistinctKeys (remove_peer responders draw p wi).block_presence
  unfolding remove_peer calculate_best_peer
  removed_distinct responders draw p wi d =
      let e = delete-HasDistinctKeys p wi.block_presence d in
      elim (Bool-cases (is_sent_to p wi)) [ inl t ↦ rw t e | inr t ↦ rw t e ]

  remove_peer-Harmless :
      (responders : Map Peer ℕ) (draw : List Peer → F) (p : Peer)
      → Harmless (remove_peer responders draw p)
  unfolding remove_peer calculate_best_peer is_sent_to
  remove_peer-Harmless responders draw p = record {
    asks_none = λ q wi h. ground arith;
    keeps_fresh = λ wi h.
        IsFresh-of responders draw (remove_peer responders draw p wi)
          (removed_distinct responders draw p wi h.distinct) refl;
  }

module _ {Cid Peer F : Type 0} ⦃ck : Key Cid⦄ ⦃pk : Key Peer⦄ ⦃fl : Floats F⦄ where
  pub update_want-Less :
      (w : World Cid Peer F) (c : Cid) (p : Peer) (s : Sender Cid Peer)
      → Less s (update_want_block_presence w c p s)
  unfolding update_want_block_presence
  update_want-Less w c p s =
      modify-Less c (set_peer_block_presence s.first_responder (w.draw c) p (known w p c)) s
        (set_presence-Harmless s.first_responder (w.draw c) p (known w p c))

  remove_peer_from-Less :
      (w : World Cid Peer F) (c : Cid) (p : Peer) (s : Sender Cid Peer)
      → Less s (remove_peer_from w c p s)
  unfolding remove_peer_from
  remove_peer_from-Less w c p s =
      modify-Less c (remove_peer s.first_responder (w.draw c) p) s
        (remove_peer-Harmless s.first_responder (w.draw c) p)

  update_for_peers-Less :
      (w : World Cid Peer F) (c : Cid) (ps : List Peer) (s : Sender Cid Peer)
      → Less s (update_for_peers w c ps s)
  unfolding update_for_peers
  update_for_peers-Less w c [] s = Less-refl s
  update_for_peers-Less w c (p ∷ ps) s =
      let s' = update_want_block_presence w c p s in
      Less-trans s s' (update_for_peers w c ps s') (update_want-Less w c p s)
        (update_for_peers-Less w c ps s')

  pub track_want-Calm :
      (w : World Cid Peer F) (c : Cid) (s : Sender Cid Peer) → Calm s (track_want w c s)
  unfolding track_want
  track_want-Calm w c s =
      let s' = record s { wants = insert c new_want_info s.wants } in
      if-Calm (has_key c s.wants) (Calm-refl s) (
        Calm-trans s s' (update_for_peers w c s.peers.peers s') (new_want-Calm c s)
          (update_for_peers-Less w c s.peers.peers s').calm)

  update_wants_for-Less :
      (w : World Cid Peer F) (p : Peer) (b : Bool) (cs : List Cid) (s : Sender Cid Peer)
      → Less s (update_wants_for w p b cs s)
  unfolding update_wants_for
  update_wants_for-Less w p b [] s = Less-refl s
  update_wants_for-Less w p b (c ∷ cs) s =
      let s' = if b then update_want_block_presence w c p s else remove_peer_from w c p s in
      Less-trans s s' (update_wants_for w p b cs s')
        (if-Less b (update_want-Less w c p s) (remove_peer_from-Less w c p s))
        (update_wants_for-Less w p b cs s')

  peer_moved-Less :
      (w : World Cid Peer F) (p : Peer) (b : Bool) (m : SessionPeers.Manager Peer)
      (s : Sender Cid Peer)
      → Less s (peer_moved w p b m s)
  unfolding peer_moved update_wants_peer_availability
  peer_moved-Less w p b m s =
      let s0 = record s { peers = m } in
      let s1 = update_wants_for w p b (keys s.wants) s0 in
      Less-trans s s1 (reset_count p s1)
        (Less-trans s s0 s1 (peers-Less m s) (update_wants_for-Less w p b (keys s.wants) s0))
        (reset_count-Less p s1)

  set_availability-Less :
      (w : World Cid Peer F) (p : Peer) (b : Bool) (t : Moves Cid Peer)
      → Less t.sender (set_availability w p b t).sender
  unfolding set_availability
  set_availability-Less w p true t =
      let (m, is_new, es) = SessionPeers.add_peer t.sender.peers p in
      elim (Bool-cases is_new) [
        | inl e ↦ rw e (peer_moved-Less w p true m t.sender)
        | inr e ↦ rw e (Less-refl t.sender)
      ]
  set_availability-Less w p false t =
      let (m, was, es) = SessionPeers.remove_peer t.sender.peers p in
      elim (Bool-cases was) [
        | inl e ↦ rw e (peer_moved-Less w p false m t.sender)
        | inr e ↦ rw e (Less-refl t.sender)
      ]

  pub process_availability-Less :
      (w : World Cid Peer F) (av : Map Peer Bool) (t : Moves Cid Peer)
      → Less t.sender (process_availability w av t).sender
  unfolding process_availability
  process_availability-Less w [] t = Less-refl t.sender
  process_availability-Less w ((p, b) ∷ av) t =
      let t' = set_availability w p b t in
      Less-trans t.sender t'.sender (process_availability w av t').sender
        (set_availability-Less w p b t) (process_availability-Less w av t')
