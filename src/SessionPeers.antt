-- ===== src/SessionPeers.antt =====
-- bitswap/client/internal/sessionpeermanager/sessionpeermanager.go: the peers of a session. What the
-- connection manager is told is a list of effects, in order; the tag is the session's own.
pub mod Tagging
mod Tests
use boxo.Base.{Bool, true, false, not, List, [], ◌∷◌, ◌++◌, Key, contains, if◌then◌else◌}
use boxo.Base.Nested.{is_empty}
use boxo.Base.Sets.{insert_key, without}

pub data Effect (Peer : Type 0) : Type 0 where
  tag untag protect unprotect : Peer → Effect Peer

-- `SessionPeerManager`
pub record Manager (Peer : Type 0) : Type 0 where
  pub peers : List Peer
  pub peers_discovered : Bool

module _ {Peer : Type 0} where
  pub new : Manager Peer
  new = record { peers = []; peers_discovered = false }

  -- the loop of `Shutdown`
  pub untag_all : List Peer → List (Effect Peer)
  untag_all [] = []
  untag_all (p ∷ ps) = untag p ∷ unprotect p ∷ untag_all ps

  pub shutdown : Manager Peer → List (Effect Peer)
  unfolding untag_all
  shutdown m = untag_all m.peers

  unfoldable pub has_peers : Manager Peer → Bool
  has_peers m = not (is_empty m.peers)

module _ {Peer : Type 0} ⦃key : Key Peer⦄ where
  pub has_peer : Manager Peer → Peer → Bool
  has_peer m p = contains p m.peers

  -- `AddPeer`, with whether the peer is new
  unfoldable pub add_peer : Manager Peer → Peer → Manager Peer × Bool × List (Effect Peer)
  add_peer m p =
      if contains p m.peers
      then (m, false, [])
      else (record { peers = insert_key p m.peers; peers_discovered = true }, true, tag p ∷ [])

  unfoldable pub protect_connection : Manager Peer → Peer → List (Effect Peer)
  protect_connection m p = if contains p m.peers then protect p ∷ [] else []

  -- `RemovePeer`, with whether the peer was there
  unfoldable pub remove_peer : Manager Peer → Peer → Manager Peer × Bool × List (Effect Peer)
  remove_peer m p =
      if contains p m.peers
      then (record m { peers = without p m.peers }, true, untag p ∷ unprotect p ∷ [])
      else (m, false, [])
