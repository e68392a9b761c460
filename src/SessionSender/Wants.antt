-- ===== src/SessionSender/Wants.antt =====
-- The wants and the availability of peers in bitswap/client/internal/session/sessionwantsender.go.
use boxo.Base.{Bool, true, false, List, [], ◌∷◌, ◌++◌, Key, if◌then◌else◌}
use boxo.Base.Map.{Map, keys, insert, delete, has_key, modify}
use boxo.BlockPresence.{peer_has_block, peer_does_not_have_block}
use boxo.SessionPeers
use boxo.SessionSender.{Presence, dont_have, unknown, have, Sender, Effect, tells, Floats, World}
use boxo.SessionSender.Infos.{new_want_info, set_peer_block_presence, remove_peer}

-- The variables of `processAvailability`.
pub record Moves (Cid Peer : Type 0) : Type 0 where
  pub sender : Sender Cid Peer
  pub newly_available : List Peer
  pub newly_unavailable : List Peer
  pub effects : List (Effect Cid Peer)

module _ {Cid Peer : Type 0} ⦃ck : Key Cid⦄ where
  unfoldable pub untrack_want : Cid → Sender Cid Peer → Sender Cid Peer
  untrack_want c s = record s { wants = delete c s.wants }

module _ {Cid Peer : Type 0} ⦃pk : Key Peer⦄ where
  -- `if sws.proxy { delete(sws.peerConsecutiveDontHaves, p) }`
  unfoldable pub reset_count : Peer → Sender Cid Peer → Sender Cid Peer
  reset_count p s =
      if s.proxy then record s { consecutive_dont_haves = delete p s.consecutive_dont_haves } else s

module _ {Cid Peer F : Type 0} ⦃ck : Key Cid⦄ ⦃pk : Key Peer⦄ ⦃fl : Floats F⦄ where
  -- what the block presence manager knows, in the order of the switch
  unfoldable pub known : World Cid Peer F → Peer → Cid → Presence
  known w p c =
      if peer_has_block w.bpm p c
      then have
      else if peer_does_not_have_block w.bpm p c
      then dont_have
      else unknown

  unfoldable pub update_want_block_presence :
      World Cid Peer F → Cid → Peer → Sender Cid Peer → Sender Cid Peer
  unfolding known set_peer_block_presence
  update_want_block_presence w c p s = record s {
    wants = modify c (set_peer_block_presence s.first_responder (w.draw c) p (known w p c)) s.wants;
  }

  -- the loop of `trackWant`
  unfoldable pub update_for_peers :
      World Cid Peer F → Cid → List Peer → Sender Cid Peer → Sender Cid Peer
  unfolding update_want_block_presence
  update_for_peers w c [] s = s
  update_for_peers w c (p ∷ ps) s = update_for_peers w c ps (update_want_block_presence w c p s)

  unfoldable pub track_want : World Cid Peer F → Cid → Sender Cid Peer → Sender Cid Peer
  unfolding update_for_peers new_want_info
  track_want w c s =
      if has_key c s.wants
      then s
      else update_for_peers w c s.peers.peers (record s { wants = insert c new_want_info s.wants })

  -- `wi.removePeer` on the want's information
  unfoldable pub remove_peer_from :
      World Cid Peer F → Cid → Peer → Sender Cid Peer → Sender Cid Peer
  unfolding remove_peer
  remove_peer_from w c p s = record s {
    wants = modify c (remove_peer s.first_responder (w.draw c) p) s.wants;
  }

  -- the loop of `updateWantsPeerAvailability`
  unfoldable pub update_wants_for :
      World Cid Peer F → Peer → Bool → List Cid → Sender Cid Peer → Sender Cid Peer
  unfolding update_want_block_presence remove_peer_from
  update_wants_for w p b [] s = s
  update_wants_for w p b (c ∷ cs) s =
      update_wants_for w p b cs
        (if b then update_want_block_presence w c p s else remove_peer_from w c p s)

  unfoldable pub update_wants_peer_availability :
      World Cid Peer F → Peer → Bool → Sender Cid Peer → Sender Cid Peer
  unfolding update_wants_for
  update_wants_peer_availability w p b s = update_wants_for w p b (keys s.wants) s

  -- the changes to the sender when a peer's state changes
  unfoldable pub peer_moved :
      World Cid Peer F → Peer → Bool → SessionPeers.Manager Peer → Sender Cid Peer → Sender Cid Peer
  unfolding update_wants_peer_availability reset_count
  peer_moved w p b m s =
      reset_count p (update_wants_peer_availability w p b (record s { peers = m }))

  -- one turn of `processAvailability`
  unfoldable pub set_availability : World Cid Peer F → Peer → Bool → Moves Cid Peer → Moves Cid Peer
  unfolding peer_moved
  set_availability w p true t =
      let (m, is_new, es) = SessionPeers.add_peer t.sender.peers p in
      if is_new
      then record {
        sender = peer_moved w p true m t.sender;
        newly_available = t.newly_available ++ p ∷ [];
        newly_unavailable = t.newly_unavailable;
        effects = t.effects ++ tells es ∷ [];
      }
      else t
  set_availability w p false t =
      let (m, was, es) = SessionPeers.remove_peer t.sender.peers p in
      if was
      then record {
        sender = peer_moved w p false m t.sender;
        newly_available = t.newly_available;
        newly_unavailable = t.newly_unavailable ++ p ∷ [];
        effects = t.effects ++ tells es ∷ [];
      }
      else t

  unfoldable pub process_availability :
      World Cid Peer F → Map Peer Bool → Moves Cid Peer → Moves Cid Peer
  unfolding set_availability
  process_availability w [] t = t
  process_availability w ((p, b) ∷ av) t = process_availability w av (set_availability w p b t)
